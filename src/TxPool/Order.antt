-- ===== src/TxPool/Order.antt =====
-- Orders of nonces in a sender's lists, over anything that has a nonce: gapless runs, strictly
-- growing lists, and lists without a repeated nonce.
use mathlib.Core.Option.{some-injective}
use native.Mathlib.Nat.{add-zero}
use hardhat.Prelude.{
  refl, subst, sym, ap, ◌∙◌, All-append, ℕ, zero, suc, ◌+◌, ◌≤◌, ◌≡◌, ◌≢◌, ◌==◌, List, [], ◌∷◌,
  ◌++◌, some, none, length, set, get_elem?, last?, All, All-map, arith, false,
}

module _ {ℓ} {A : Type ℓ} (nonce : A → ℕ) where
  -- the nonces are n, n + 1, n + 2, …
  abbrev pub Consecutive : ℕ → List A → Type 0
  Consecutive n [] = Unit
  Consecutive n (x ∷ xs) = (nonce x ≡ n) × Consecutive (suc n) xs

  -- the nonces grow strictly, from n on
  abbrev pub Growing : ℕ → List A → Type 0
  Growing n [] = Unit
  Growing n (x ∷ xs) = (n ≤ nonce x) × Growing (suc (nonce x)) xs

  -- no nonce occurs twice
  abbrev pub Distinct : List A → Type 0
  Distinct [] = Unit
  Distinct (x ∷ xs) = All (λ y. nonce y ≢ nonce x) xs × Distinct xs

  pub Consecutive-append :
      (n : ℕ) (xs ys : List A)
      → Consecutive n xs
      → Consecutive (n + length xs) ys
      → Consecutive n (xs ++ ys)
  Consecutive-append n [] ys h k = subst (λ m. Consecutive m ys) (add-zero n) k
  Consecutive-append n (x ∷ xs) ys h k =
      (h.0, Consecutive-append (suc n) xs ys h.1 (subst (λ m. Consecutive m ys) (omega arith) k))

  pub nonce-last :
      (n : ℕ) (xs : List A) (x : A)
      → Consecutive n xs
      → last? xs ≡ some x
      → suc (nonce x) ≡ n + length xs
  nonce-last n [] x h e = cc
  nonce-last n (y ∷ []) x h e = ground arith
  nonce-last n (y ∷ z ∷ xs) x h e = omega (arith, nonce-last (suc n) (z ∷ xs) x h.1 e)

  pub Consecutive-set :
      (n : ℕ) (xs : List A) (i : ℕ) (x y : A)
      → Consecutive n xs
      → get_elem? xs i ≡ some x
      → nonce y ≡ nonce x
      → Consecutive n (set xs i y)
  Consecutive-set n [] i x y h e same = tt
  Consecutive-set n (z ∷ xs) zero x y h e same = (ground arith, h.1)
  Consecutive-set n (z ∷ xs) (suc i) x y h e same =
      (h.0, Consecutive-set (suc n) xs i x y h.1 e same)

  -- a nonce inside the run is found in it
  pub Consecutive-absent :
      (n k : ℕ) (xs : List A)
      → Consecutive n xs
      → All (λ x. (nonce x == k) ≡ false) xs
      → n ≤ k
      → n + length xs ≤ k
  Consecutive-absent n k [] h a l = omega arith
  Consecutive-absent n k (x ∷ xs) h a l = ground (arith, Consecutive-absent (suc n) k xs h.1 a.1)

  pub Growing-weaken : (m n : ℕ) (xs : List A) → m ≤ n → Growing n xs → Growing m xs
  Growing-weaken m n [] l g = tt
  Growing-weaken m n (x ∷ xs) l g = (omega arith, g.1)

  pub Growing-All : (n : ℕ) (xs : List A) → Growing n xs → All (λ x. n ≤ nonce x) xs
  Growing-All n [] g = tt
  Growing-All n (x ∷ xs) g =
      (g.0, Growing-All n xs (Growing-weaken n (suc (nonce x)) xs (omega arith) g.1))

  pub Growing-Distinct : (n : ℕ) (xs : List A) → Growing n xs → Distinct xs
  Growing-Distinct n [] g = tt
  Growing-Distinct n (x ∷ xs) g = (
    All-map (λ y (h : suc (nonce x) ≤ nonce y). omega arith) xs (Growing-All _ xs g.1),
    Growing-Distinct (suc (nonce x)) xs g.1,
  )

module _ {ℓ κ} {A : Type ℓ} (P : A → Type κ) where
  pub All-set : (xs : List A) (i : ℕ) (y : A) → All P xs → P y → All P (set xs i y)
  All-set [] i y h k = tt
  All-set (x ∷ xs) zero y h k = (k, h.1)
  All-set (x ∷ xs) (suc i) y h k = (h.0, All-set xs i y h.1 k)

  pub All-get_elem? : (xs : List A) (i : ℕ) (x : A) → All P xs → get_elem? xs i ≡ some x → P x
  All-get_elem? [] i x h e = cc
  All-get_elem? (y ∷ xs) zero x h e = subst P (some-injective y x e) h.0
  All-get_elem? (y ∷ xs) (suc i) x h e = All-get_elem? xs i x h.1 e

module _ {ℓ} {A : Type ℓ} (nonce : A → ℕ) where
  pub Distinct-set :
      (xs : List A) (i : ℕ) (x y : A)
      → get_elem? xs i ≡ some x
      → nonce y ≡ nonce x
      → Distinct nonce xs
      → Distinct nonce (set xs i y)
  Distinct-set [] i x y e same d = tt
  Distinct-set (z ∷ xs) zero x y e same d =
      let at : nonce y ≡ nonce z = same ∙ ap nonce (sym (some-injective z x e)) in
      (subst (λ k. All (λ w. nonce w ≢ k) xs) (sym at) d.0, d.1)
  Distinct-set (z ∷ xs) (suc i) x y e same d = (
    All-set _ xs i y d.0 (subst (λ k. k ≢ nonce z) (sym same) (All-get_elem? _ xs i x d.0 e)),
    Distinct-set xs i x y e same d.1,
  )

  pub Distinct-push :
      (xs : List A) (y : A)
      → All (λ t. (nonce t == nonce y) ≡ false) xs
      → Distinct nonce xs
      → Distinct nonce (xs ++ y ∷ [])
  Distinct-push [] y fresh d = (tt, tt)
  Distinct-push (x ∷ xs) y fresh d =
      (All-append _ xs (y ∷ []) d.0 (ground arith, tt), Distinct-push xs y fresh.1 d.1)

pub length-set {ℓ} : {A : Type ℓ} (xs : List A) (i : ℕ) (y : A) → length (set xs i y) ≡ length xs
length-set [] i y = refl
length-set (x ∷ xs) zero y = refl
length-set (x ∷ xs) (suc i) y = ap suc (length-set xs i y)

pub length-last_none {ℓ} : {A : Type ℓ} (xs : List A) → last? xs ≡ none → length xs ≡ 0
length-last_none [] e = refl
length-last_none (x ∷ []) e = cc
length-last_none (x ∷ y ∷ xs) e = absurd (omega (arith, length-last_none (y ∷ xs) e))

pub last-push {ℓ} : {A : Type ℓ} (xs : List A) (y : A) → last? (xs ++ y ∷ []) ≡ some y
last-push [] y = refl
last-push (x ∷ []) y = refl
last-push (x ∷ z ∷ xs) y = last-push (z ∷ xs) y
