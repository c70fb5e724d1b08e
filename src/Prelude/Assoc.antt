-- ===== src/Prelude/Assoc.antt =====
-- JavaScript's `Map` and immutable's `Map` over numeric keys, as association lists in insertion
-- order: `set` replaces the entry of a key in place, or adds one at the end.
use Prim.Native.Nat.{ℕ}
use mathlib.Core.List.{List, [], ◌∷◌}
use mathlib.Core.Option.{Option, none, some}
use mathlib.Core.Logic.{inl, inr}
use mathlib.Core.Path.{◌≡◌, refl, subst, ◌∙◌}
use native.Mathlib.Omega.{arith}
use mathlib.Core.Bool.{false}
use hardhat.Prelude.Tests.{◌==◌, if◌then◌else◌, Bool-cases, ==_iff}

module _ {ℓ} {V : Type ℓ} where
  abbrev pub get : ℕ → List (ℕ × V) → Option V
  get k [] = none
  get k ((j, v) ∷ m) = if j == k then some v else get k m

  abbrev pub put : ℕ → V → List (ℕ × V) → List (ℕ × V)
  put k v [] = (k, v) ∷ []
  put k v ((j, w) ∷ m) = if j == k then (k, v) ∷ m else (j, w) ∷ put k v m

  abbrev pub delete : ℕ → List (ℕ × V) → List (ℕ × V)
  delete k [] = []
  delete k ((j, w) ∷ m) = let rest = delete k m in if j == k then rest else (j, w) ∷ rest

  pub get-put :
      (k j : ℕ) (v : V) (m : List (ℕ × V))
      → get j (put k v m) ≡ (if k == j then some v else get j m)
  get-put k j v [] = refl
  get-put k j v ((i, w) ∷ m) = ground (arith, get-put k j v m)

  pub get-delete :
      (k j : ℕ) (m : List (ℕ × V)) → get j (delete k m) ≡ (if k == j then none else get j m)
  get-delete k j [] = ground arith
  get-delete k j ((i, w) ∷ m) = ground (arith, get-delete k j m)

  pub get-put_self : (k : ℕ) (v : V) (m : List (ℕ × V)) → get k (put k v m) ≡ some v
  get-put_self k v m = ground (arith, get-put k k v m)

  pub get-put_ne :
      (k j : ℕ) (v : V) (m : List (ℕ × V)) → (k == j) ≡ false → get j (put k v m) ≡ get j m
  get-put_ne k j v m e = ground (arith, get-put k j v m)

  -- no key occurs twice, as in the `Map` that the list stands for
  abbrev pub HasUniqueKeys : List (ℕ × V) → Type ℓ
  HasUniqueKeys [] = Unit
  HasUniqueKeys ((j, v) ∷ m) = (get j m ≡ none) × HasUniqueKeys m

  pub put-HasUniqueKeys :
      (k : ℕ) (v : V) (m : List (ℕ × V)) → HasUniqueKeys m → HasUniqueKeys (put k v m)
  put-HasUniqueKeys k v [] u = (refl, tt)
  put-HasUniqueKeys k v ((j, w) ∷ m) u = elim (Bool-cases (j == k)) [
    | inl e ↦ rw e (subst (λ i. get i m ≡ none) ((==_iff j k).0 e) u.0, u.1)
    | inr e ↦ rw e (get-put_ne k j v m (ground (arith, e)) ∙ u.0, put-HasUniqueKeys k v m u.1)
  ]
