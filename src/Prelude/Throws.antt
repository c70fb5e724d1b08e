-- ===== src/Prelude/Throws.antt =====
-- Methods of a stateful object that may throw. A throw keeps the changes made before it, as an
-- exception in JavaScript does, so both outcomes carry the state.
use mathlib.Core.Logic.{◌⊎◌, inl, inr}
use mathlib.Core.Path.{◌≡◌, refl}

pub data Outcome {ℓ κ μ} (E : Type ℓ) (S : Type κ) (A : Type μ) : Type (ℓ ⊔ κ ⊔ μ) where
  ok : A → S → Outcome E S A
  throws : E → S → Outcome E S A

module _ {ℓ κ μ} {E : Type ℓ} {S : Type κ} {A : Type μ} where
  -- the object after the call, whether it returned or threw
  abbrev pub after : Outcome E S A → S
  after (ok a s) = s
  after (throws e s) = s

  pub Outcome-cases :
      (r : Outcome E S A)
      → ((a : A) × (s : S) × (r ≡ ok a s)) ⊎ ((e : E) × (s : S) × (r ≡ throws e s))
  Outcome-cases (ok a s) = inl (a, s, refl)
  Outcome-cases (throws e s) = inr (e, s, refl)

-- sequencing: a throw skips what follows
infixl 5 ◌>>=◌ ◌>>◌
abbrev pub ◌>>=◌ {ℓ κ μ ν} :
    {E : Type ℓ} {S : Type κ} {A : Type μ} {B : Type ν}
    → (S → Outcome E S A)
    → (A → S → Outcome E S B)
    → S
    → Outcome E S B
◌>>=◌ m f s = elim (m s) [ ok a s' ↦ f a s' | throws e s' ↦ throws e s' ]

abbrev pub ◌>>◌ {ℓ κ ν} :
    {E : Type ℓ} {S : Type κ} {B : Type ν}
    → (S → Outcome E S (Unit {0}))
    → (S → Outcome E S B)
    → S
    → Outcome E S B
◌>>◌ m k = m >>= λ _. k
