-- ===== src/Prelude/Dict.antt =====
-- Objects and maps whose keys are strings, as association lists in the order of insertion.
use Prim.Native.Nat.{ℕ}
use mathlib.Core.List.{List, [], ◌∷◌}
use mathlib.Core.Option.{Option, none, some}
use mathlib.Core.Path.{◌≡◌, refl}
use native.Mathlib.Omega.{arith}
use hardhat.Prelude.Tests.{if◌then◌else◌, list_beq, list_beq_iff}

module _ {ℓ} {V : Type ℓ} where
  abbrev pub lookup : List ℕ → List (List ℕ × V) → Option V
  lookup k [] = none
  lookup k ((j, v) ∷ m) = if list_beq j k then some v else lookup k m

  abbrev pub store : List ℕ → V → List (List ℕ × V) → List (List ℕ × V)
  store k v [] = (k, v) ∷ []
  store k v ((j, w) ∷ m) = if list_beq j k then (k, v) ∷ m else (j, w) ∷ store k v m

  pub lookup-store :
      (k j : List ℕ) (v : V) (m : List (List ℕ × V))
      → lookup j (store k v m) ≡ (if list_beq k j then some v else lookup j m)
  lookup-store k j v [] = refl
  lookup-store k j v ((i, w) ∷ m) =
      ground (arith, list_beq_iff i k, list_beq_iff i j, list_beq_iff k j, lookup-store k j v m)
