-- ===== src/Tasks/Building.antt =====
-- Lemmas for the tasks that the methods of SimpleTaskDefinition build.
use hardhat.Prelude.{
  ℕ, ◌≡◌, refl, sym, subst, ◌∙◌, Bool, true, false, ◌||◌, not, List, [], ◌∷◌, ◌++◌, inl, inr,
  Option, none, some, any, All, All-append, All-map, list_beq, list_beq_iff, if◌then◌else◌,
  Bool-cases, arith,
}
use hardhat.Prelude.Dict.{lookup, store, lookup-store}
use hardhat.Tasks.Definitions.{TaskError, Built, built, throws, ◌>>=◌, ◌>>◌, require}

pub >>=-built :
    {A B : Type 0} (m : Built A) (f : A → Built B) (b : B)
    → (m >>= f) ≡ built b
    → (a : A) × (m ≡ built a) × (f a ≡ built b)
>>=-built (built a) f b h = (a, refl, h)
>>=-built (throws e) f b h = cc

pub >>-built :
    {B : Type 0} (m : Built (Unit {0})) (k : Built B) (b : B)
    → (m >> k) ≡ built b
    → (m ≡ built tt) × (k ≡ built b)
>>-built (built tt) k b h = (refl, h)
>>-built (throws e) k b h = cc

pub required : (b : Bool) (e : TaskError) → require b e ≡ built tt → b ≡ true
required true e h = refl
required false e h = cc

module _ {A : Type 0} (p : A → Bool) where
  pub any-append_one : (xs : List A) (x : A) → any p (xs ++ x ∷ []) ≡ (p x || any p xs)
  any-append_one [] x = refl
  any-append_one (y ∷ ys) x = ground (arith, any-append_one ys x)

  -- behind one that passes, all pass
  abbrev pub PassLast : List A → Type 0
  PassLast [] = Unit
  PassLast (x ∷ xs) = (p x ≡ true → All (λ y. p y ≡ true) xs) × PassLast xs

  -- nothing stands behind one that passes
  abbrev pub PassEnds : List A → Type 0
  PassEnds [] = Unit
  PassEnds (x ∷ xs) = (p x ≡ true → xs ≡ []) × PassEnds xs

  pub PassLast-append_one :
      (xs : List A) (x : A) → (p x || not (any p xs)) ≡ true → PassLast xs → PassLast (xs ++ x ∷ [])
  PassLast-append_one [] x h q = ((λ e. tt), tt)
  PassLast-append_one (y ∷ ys) x h q = (
    (λ e. All-append (λ z. p z ≡ true) ys (x ∷ []) (q.0 e) (ground arith, tt)),
    PassLast-append_one ys x (ground arith) q.1,
  )

  pub PassEnds-append_one :
      (xs : List A) (x : A) → any p xs ≡ false → PassEnds xs → PassEnds (xs ++ x ∷ [])
  PassEnds-append_one [] x h q = ((λ e. refl), tt)
  PassEnds-append_one (y ∷ ys) x h q =
      ((λ e. absurd (ground arith)), PassEnds-append_one ys x (ground arith) q.1)

module _ {V : Type 0} where
  -- an entry is what its name is looked up as
  abbrev pub IsFound : List (List ℕ × V) → List ℕ × V → Type 0
  IsFound m e = lookup e.0 m ≡ some e.1

  -- no two entries have the same name
  abbrev pub HaveOwnNames : List (List ℕ × V) → Type 0
  HaveOwnNames [] = Unit
  HaveOwnNames ((k, v) ∷ m) = (lookup k m ≡ none) × HaveOwnNames m

  HaveOwnNames-append_one :
      (k : List ℕ) (v : V) (m : List (List ℕ × V))
      → lookup k m ≡ none
      → HaveOwnNames m
      → HaveOwnNames (m ++ (k, v) ∷ [])
  HaveOwnNames-append_one k v [] h a = (refl, tt)
  HaveOwnNames-append_one k v ((j, w) ∷ m) h a =
      let other : list_beq k j ≡ false = elim (Bool-cases (list_beq k j)) [
        | inr e ↦ e
        | inl e ↦
            let self : list_beq j j ≡ true = (list_beq_iff j j).1 refl in
            let missing = subst (λ n. lookup n ((j, w) ∷ m) ≡ none) ((list_beq_iff k j).0 e) h in
            absurd (ground (arith, self, missing))
      ] in
      (
        ground (arith, a.0, other, lookup-append_one m a.0),
        HaveOwnNames-append_one k v m (ground (arith, h)) a.1,
      )
    where
      lookup-append_one :
          (m : List (List ℕ × V))
          → lookup j m ≡ none
          → lookup j (m ++ (k, v) ∷ []) ≡ (if list_beq k j then some v else none)
      lookup-append_one [] h = refl
      lookup-append_one ((i, u) ∷ m) h = ground (arith, lookup-append_one m)

  pub store-absent :
      (k : List ℕ) (v : V) (m : List (List ℕ × V))
      → lookup k m ≡ none
      → store k v m ≡ m ++ (k, v) ∷ []
  store-absent k v [] h = refl
  store-absent k v ((j, w) ∷ m) h = ground (arith, store-absent k v m)

  pub HaveOwnNames-store :
      (k : List ℕ) (v : V) (m : List (List ℕ × V))
      → lookup k m ≡ none
      → HaveOwnNames m
      → HaveOwnNames (store k v m)
  HaveOwnNames-store k v m h a =
      subst HaveOwnNames (sym (store-absent k v m h)) (HaveOwnNames-append_one k v m h a)

  pub All-store :
      (P : List ℕ × V → Type 0) (k : List ℕ) (v : V) (m : List (List ℕ × V))
      → lookup k m ≡ none
      → All P m
      → P (k, v)
      → All P (store k v m)
  All-store P k v m h a q =
      subst (All P) (sym (store-absent k v m h)) (All-append P m ((k, v) ∷ []) a (q, tt))

  IsFound-store :
      (k : List ℕ) (v : V) (m : List (List ℕ × V)) (e : List ℕ × V)
      → lookup k m ≡ none
      → IsFound m e
      → IsFound (store k v m) e
  IsFound-store k v m e h f = elim (Bool-cases (list_beq k e.0)) [
    | inl same ↦
        let equal = (list_beq_iff k e.0).0 same in
        absurd (none_some (sym (subst (λ n. lookup n m ≡ none) equal h) ∙ f))
    | inr other ↦ ground (arith, lookup-store k e.0 v m)
  ]
    where
      none_some : {a : V} → ◌≡◌ {A = Option V} none (some a) → ⊥
      none_some h = cc

  pub store-All-IsFound :
      (k : List ℕ) (v : V) (m : List (List ℕ × V))
      → lookup k m ≡ none
      → All (IsFound m) m
      → All (IsFound (store k v m)) (store k v m)
  store-All-IsFound k v m h a =
      All-store (IsFound (store k v m)) k v m h (All-map (λ e f. IsFound-store k v m e h f) m a)
        (ground (arith, lookup-store k k v m, list_beq_iff k k))
