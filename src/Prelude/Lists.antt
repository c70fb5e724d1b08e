-- ===== src/Prelude/Lists.antt =====
-- Lists measured and indexed by native numbers, the predicate that holds of every element, and
-- the searches that JavaScript's arrays and immutable lists share.
use Prim.Native.Nat.{ℕ, zero, suc, ◌+◌}
use mathlib.Core.Bool.{Bool, true, false, ◌||◌}
use mathlib.Core.List.{List, [], ◌∷◌, ◌++◌, map}
use mathlib.Core.Option.{Option, none, some}
use mathlib.Core.Logic.{inl, inr}
use mathlib.Core.Path.{◌≡◌, refl, ap, ◌∙◌}
use native.Mathlib.Omega.{arith}
use hardhat.Prelude.Tests.{if◌then◌else◌, Bool-cases}

module _ {ℓ} {A : Type ℓ} where
  abbrev pub length : List A → ℕ
  length [] = 0
  length (x ∷ xs) = suc (length xs)

  -- a write out of bounds changes nothing
  abbrev pub set : List A → ℕ → A → List A
  set [] i v = []
  set (x ∷ xs) zero v = v ∷ xs
  set (x ∷ xs) (suc i) v = x ∷ set xs i v

  abbrev pub get_elem? : List A → ℕ → Option A
  get_elem? [] i = none
  get_elem? (x ∷ xs) zero = some x
  get_elem? (x ∷ xs) (suc i) = get_elem? xs i

  -- the list without its element `i`
  abbrev pub remove_at : ℕ → List A → List A
  remove_at i [] = []
  remove_at zero (x ∷ xs) = xs
  remove_at (suc i) (x ∷ xs) = x ∷ remove_at i xs

  abbrev pub take : ℕ → List A → List A
  take zero xs = []
  take (suc n) [] = []
  take (suc n) (x ∷ xs) = x ∷ take n xs

  abbrev pub drop : ℕ → List A → List A
  drop zero xs = xs
  drop (suc n) [] = []
  drop (suc n) (x ∷ xs) = drop n xs

  abbrev pub last? : List A → Option A
  last? [] = none
  last? (x ∷ []) = some x
  last? (x ∷ y ∷ xs) = last? (y ∷ xs)

  abbrev pub any : (A → Bool) → List A → Bool
  any p [] = false
  any p (x ∷ xs) = p x || any p xs

  -- the elements that pass a Boolean test, in order
  abbrev pub keep : (A → Bool) → List A → List A
  keep p [] = []
  keep p (x ∷ xs) = let rest = keep p xs in if p x then x ∷ rest else rest

  -- the first element that passes, with its index counted from `i`
  abbrev pub find_entry_from : ℕ → (A → Bool) → List A → Option (ℕ × A)
  find_entry_from i p [] = none
  find_entry_from i p (x ∷ xs) = elim (p x) [
    | true ↦ some (i, x)
    | false ↦ find_entry_from (suc i) p xs
  ]

  pub length-append : (xs ys : List A) → length (xs ++ ys) ≡ length xs + length ys
  length-append [] ys = omega arith
  length-append (x ∷ xs) ys = omega (arith, length-append xs ys)

module _ {ℓ κ} {A : Type ℓ} {B : Type κ} (f : A → B) where
  pub length-map : (xs : List A) → length (map f xs) ≡ length xs
  length-map [] = refl
  length-map (x ∷ xs) = ap suc (length-map xs)

module _ {ℓ κ} {A : Type ℓ} (P : A → Type κ) where
  abbrev pub All : List A → Type κ
  All [] = Unit
  All (x ∷ xs) = P x × All xs

module _ {ℓ κ} {A : Type ℓ} (P : A → Type κ) where
  pub All-append : (xs ys : List A) → All P xs → All P ys → All P (xs ++ ys)
  All-append [] ys h k = k
  All-append (x ∷ xs) ys h k = (h.0, All-append xs ys h.1 k)

  pub All-append_left : (xs ys : List A) → All P (xs ++ ys) → All P xs
  All-append_left [] ys h = tt
  All-append_left (x ∷ xs) ys h = (h.0, All-append_left xs ys h.1)

  pub All-append_right : (xs ys : List A) → All P (xs ++ ys) → All P ys
  All-append_right [] ys h = h
  All-append_right (x ∷ xs) ys h = All-append_right xs ys h.1

pub All-map {ℓ κ μ} :
    {A : Type ℓ} {P : A → Type κ} {Q : A → Type μ} (f : (a : A) → P a → Q a) (xs : List A)
    → All P xs
    → All Q xs
All-map f [] h = tt
All-map f (x ∷ xs) h = (f x h.0, All-map f xs h.1)

-- what a search with an index finds, and what it leaves out
module _ {ℓ} {A : Type ℓ} (p : A → Bool) where
  pub find_entry_none :
      (k : ℕ) (xs : List A) → find_entry_from k p xs ≡ none → All (λ x. p x ≡ false) xs
  find_entry_none k [] h = tt
  find_entry_none k (x ∷ xs) h = ground (arith, find_entry_none (suc k) xs)

  pub find_entry_some :
      (k : ℕ) (xs : List A) (i : ℕ) (x : A)
      → find_entry_from k p xs ≡ some (i, x)
      → (j : ℕ) × (i ≡ k + j) × (get_elem? xs j ≡ some x) × (p x ≡ true)
  find_entry_some k [] i x h = cc
  find_entry_some k (y ∷ ys) i x h = elim (Bool-cases (p y)) [
    | inl e ↦ (0, ground arith, ground arith, ground arith)
    | inr e ↦
        let (j, at, found, test) = find_entry_some (suc k) ys i x (ground arith) in
        (suc j, omega arith, found, test)
  ]

-- a search goes past a part in which nothing passes
pub find_entry-append {ℓ} :
    {A : Type ℓ} (p : A → Bool) (k : ℕ) (xs ys : List A)
    → All (λ x. p x ≡ false) xs
    → find_entry_from k p (xs ++ ys) ≡ find_entry_from (k + length xs) p ys
find_entry-append p k [] ys h = ap (λ n. find_entry_from n p ys) (omega arith)
find_entry-append p k (x ∷ xs) ys h =
    rw h.0 (find_entry-append p (suc k) xs ys h.1 ∙ ap (λ n. find_entry_from n p ys) (omega arith))
