-- ===== src/ContractNames/RoundTrip.antt =====
-- A fully qualified name parses into the names that it was made of.
use hardhat.Prelude.{
  ℕ, ◌≡◌, refl, sym, ap, ◌∙◌, subst, true, false, ◌==◌, List, [], ◌∷◌, some, arith, inl, inr,
  Bool-cases, ==_iff,
}
use hardhat.ContractNames.{
  colon, get_fully_qualified_name, is_fully_qualified_name, split, join, unsnoc, parse_name,
  require_source, parse_fully_qualified_name,
}

-- no colon: one part
split-single : (c : List ℕ) → is_fully_qualified_name c ≡ false → split c ≡ c ∷ []
unfolding split is_fully_qualified_name
split-single [] e = refl
split-single (x ∷ c) e = ground (arith, e, split-single c)

join-put : (x : ℕ) (p : List ℕ) (ps : List (List ℕ)) → join ((x ∷ p) ∷ ps) ≡ x ∷ join (p ∷ ps)
unfolding join
join-put x p [] = refl
join-put x p (q ∷ ps) = refl

-- the parts of a name with a colon in it, up to the contract's name
split-qualified :
    (s c : List ℕ)
    → is_fully_qualified_name c ≡ false
    → (p q : List ℕ) × (ps : List (List ℕ)) × (split (get_fully_qualified_name s c) ≡ p ∷ q ∷ ps)
      × (join (unsnoc p (q ∷ ps)).0 ≡ s)
      × ((unsnoc p (q ∷ ps)).1 ≡ c)
unfolding split get_fully_qualified_name unsnoc join
split-qualified [] c e = ([], c, [], rw (split-single c e) refl, refl, refl)
split-qualified (x ∷ s) c e =
    let (p, q, ps, parts, source, contract) = split-qualified s c e in
    elim (Bool-cases (x == colon)) [
      | inl is_colon ↦ (
        [],
        p,
        q ∷ ps,
        rw (is_colon, parts) refl,
        subst (λ z. join (unsnoc [] (p ∷ q ∷ ps)).0 ≡ z ∷ s) (sym ((==_iff x colon).0 is_colon))
            (ap (λ l. colon ∷ l) source),
        contract,
      )
      | inr other ↦ (
        x ∷ p,
        q,
        ps,
        rw (other, parts) refl,
        join-put x p (unsnoc q ps).0 ∙ ap (λ l. x ∷ l) source,
        contract,
      )
    ]

is_fully_qualified-get :
    (s c : List ℕ) → is_fully_qualified_name (get_fully_qualified_name s c) ≡ true
unfolding is_fully_qualified_name get_fully_qualified_name
is_fully_qualified-get [] c = refl
is_fully_qualified-get (x ∷ s) c = ground (arith, is_fully_qualified-get s c)

parse-get :
    (s c : List ℕ)
    → is_fully_qualified_name c ≡ false
    → parse_name (get_fully_qualified_name s c) ≡ (some s, c)
unfolding parse_name
parse-get s c e =
    let (p, q, ps, parts, source, contract) = split-qualified s c e in
    let found : parse_name (get_fully_qualified_name s c)
        ≡ (some (join (unsnoc p (q ∷ ps)).0), (unsnoc p (q ∷ ps)).1) =
      rw (parse_name, parts) refl in
    found ∙ (λ i. (some (source i), contract i))

-- Where the contract's name has no colon, the fully qualified name of a source and a contract, the
-- source's name with colons or not, is recognized as one, and parses into the two names.
pub parse-get_fully_qualified :
    (source_name contract_name : List ℕ)
    → is_fully_qualified_name contract_name ≡ false
    → (is_fully_qualified_name (get_fully_qualified_name source_name contract_name) ≡ true)
      × (parse_fully_qualified_name (get_fully_qualified_name source_name contract_name)
          ≡ some (source_name, contract_name))
unfolding parse_fully_qualified_name
parse-get_fully_qualified s c e = (is_fully_qualified-get s c, ap require_source (parse-get s c e))
