-- ===== src/Filters/Bloom.antt =====
-- The bloom filter in front of a log query: which blocks it may pass over.
use hardhat.Prelude.{
  ℕ, ◌≡◌, refl, Bool, true, false, ◌==◌, ==_iff, List, [], ◌∷◌, Option, none, some, any, All, ◌⊎◌,
  inl, inr, Bool-cases, arith, subst, sym, zero, suc, get_elem?, set, ◌↔◌,
}
use hardhat.Filters.Criteria.{
  NormalizedTopics, is_wildcard, alternatives, topic_in_bloom, bloom_topics, bloom_filter, includes,
  topic_matched,
}
use hardhat.Filters.Matching.{OneOf, Matches, topic_matched-Matches}

-- no null among the alternatives of a criterion
abbrev pub HasNoNull : List (Option ℕ) → Type 0
HasNoNull [] = Unit
HasNoNull (none ∷ alts) = ⊥
HasNoNull (some a ∷ alts) = HasNoNull alts

abbrev pub HasNoNestedNull : NormalizedTopics → Type 0
HasNoNestedNull [] = Unit
HasNoNestedNull (none ∷ subs) = HasNoNestedNull subs
HasNoNestedNull (some alts ∷ subs) = HasNoNull alts × HasNoNestedNull subs

OneOf-bloom :
    (check : ℕ → Bool) (alts : List (Option ℕ)) (t : ℕ)
    → HasNoNull alts
    → check t ≡ true
    → OneOf alts t
    → any (topic_in_bloom check) alts ≡ true
OneOf-bloom check [] t n c o = absurd o
OneOf-bloom check (none ∷ alts) t n c o = absurd n
OneOf-bloom check (some a ∷ alts) t n c o = elim o [
  | inl e ↦ let at : check a ≡ true = subst (λ k. check k ≡ true) (sym e) c in ground (arith, at)
  | inr o' ↦ ground (arith, OneOf-bloom check alts t n c o')
]

Matches-bloom :
    (check : ℕ → Bool) (topics : NormalizedTopics) (ts : List ℕ)
    → HasNoNestedNull topics
    → All (λ t. check t ≡ true) ts
    → Matches topics ts
    → bloom_topics check topics ≡ true
unfolding bloom_topics
Matches-bloom check [] ts n c m = refl
Matches-bloom check (sub ∷ subs) [] n c m = absurd m
Matches-bloom check (none ∷ subs) (t ∷ ts) n c m = Matches-bloom check subs ts n c.1 m
Matches-bloom check (some [] ∷ subs) (t ∷ ts) n c m = Matches-bloom check subs ts n.1 c.1 m
Matches-bloom check (some (a ∷ alts) ∷ subs) (t ∷ ts) n c m =
    rw (OneOf-bloom check (a ∷ alts) t n.0 c.0 m.0) (Matches-bloom check subs ts n.1 c.1 m.1)

includes-bloom :
    (check : ℕ → Bool) (addresses : List ℕ) (a : ℕ)
    → check a ≡ true
    → includes addresses a ≡ true
    → any check addresses ≡ true
unfolding includes
includes-bloom check [] a c e = cc
includes-bloom check (x ∷ xs) a c e = elim (Bool-cases (x == a)) [
  | inl same ↦
      let at : check x ≡ true = subst (λ k. check k ≡ true) (sym ((==_iff x a).0 same)) c in
      ground (arith, at)
  | inr other ↦ ground (arith, includes-bloom check xs a c (ground (arith, other, e)))
]

-- A block is never passed over for a log that its bloom contains, address and topics, when the log
-- meets the criteria and no null stands among the alternatives of a position.
pub bloom_filter-passes :
    (check : ℕ → Bool) (addresses : List ℕ) (topics : NormalizedTopics) (address : ℕ)
    (log_topics : List ℕ)
    → HasNoNestedNull topics
    → check address ≡ true
    → All (λ t. check t ≡ true) log_topics
    → (addresses ≡ []) ⊎ (includes addresses address ≡ true)
    → topic_matched topics log_topics ≡ true
    → bloom_filter check addresses topics ≡ true
unfolding bloom_filter
bloom_filter-passes check addresses topics address log_topics n ca ct from m =
    let met =
      Matches-bloom check topics log_topics n ct ((topic_matched-Matches topics log_topics).0 m) in
    elim from [
      | inl e ↦ rw e met
      | inr e ↦ rw (includes-bloom check addresses address ca e) (ground (arith, met))
    ]

-- a null among the alternatives
abbrev pub HasNull : List (Option ℕ) → Type 0
HasNull [] = ⊥
HasNull (none ∷ alts) = Unit
HasNull (some a ∷ alts) = HasNull alts

OneOf-null : (alts : List (Option ℕ)) (t : ℕ) → HasNull alts → OneOf alts t
OneOf-null [] t h = absurd h
OneOf-null (none ∷ alts) t h = tt
OneOf-null (some a ∷ alts) t h = inr (OneOf-null alts t h)

Matches-wildcard :
    (topics : NormalizedTopics) (i : ℕ) (alts : List (Option ℕ)) (ts : List ℕ)
    → get_elem? topics i ≡ some (some alts)
    → HasNull alts
    → Matches topics ts ↔ Matches (set topics i none) ts
Matches-wildcard [] i alts ts e h = cc
Matches-wildcard (sub ∷ subs) zero alts [] e h = (λ m. m, λ m. m)
Matches-wildcard (none ∷ subs) zero alts (t ∷ ts) e h = (λ m. m, λ m. m)
Matches-wildcard (some [] ∷ subs) zero alts (t ∷ ts) e h = (λ m. m, λ m. m)
Matches-wildcard (some (a ∷ more) ∷ subs) zero alts (t ∷ ts) e h =
    let same : a ∷ more ≡ alts = ground (arith, e) in
    (λ m. m.1, λ m. (OneOf-null (a ∷ more) t (subst HasNull (sym same) h), m))
Matches-wildcard (sub ∷ subs) (suc i) alts [] e h = (λ m. m, λ m. m)
Matches-wildcard (none ∷ subs) (suc i) alts (t ∷ ts) e h = Matches-wildcard subs i alts ts e h
Matches-wildcard (some [] ∷ subs) (suc i) alts (t ∷ ts) e h = Matches-wildcard subs i alts ts e h
Matches-wildcard (some (a ∷ more) ∷ subs) (suc i) alts (t ∷ ts) e h =
    let (fwd, back) = Matches-wildcard subs i alts ts e h in
    (λ m. (m.0, fwd m.1), λ m. (m.0, back m.1))

bloom_topics-miss :
    (check : ℕ → Bool) (topics : NormalizedTopics) (i : ℕ) (alts : List (Option ℕ))
    → get_elem? topics i ≡ some (some alts)
    → HasNull alts
    → any (topic_in_bloom check) alts ≡ false
    → bloom_topics check topics ≡ false
unfolding bloom_topics
bloom_topics-miss check [] i alts e h miss = cc
bloom_topics-miss check (none ∷ subs) zero alts e h miss = cc
bloom_topics-miss check (some [] ∷ subs) zero alts e h miss =
    let same : ◌≡◌ {A = List (Option ℕ)} alts [] = ground (arith, e) in
    absurd (subst HasNull same h)
bloom_topics-miss check (some (a ∷ more) ∷ subs) zero alts e h miss =
    let same : a ∷ more ≡ alts = ground (arith, e) in
    let missed : any (topic_in_bloom check) (a ∷ more) ≡ false =
      subst (λ l. any (topic_in_bloom check) l ≡ false) (sym same) miss in
    rw missed refl
bloom_topics-miss check (sub ∷ subs) (suc i) alts e h miss =
    let rest = bloom_topics-miss check subs i alts e h miss in
    elim (Bool-cases (is_wildcard sub)) [
      | inl w ↦ rw w rest
      | inr w ↦ elim (Bool-cases (any (topic_in_bloom check) (alternatives sub))) [
        | inl some_in ↦ rw (w, some_in) rest
        | inr none_in ↦ rw (w, none_in) refl
      ]
    ]

-- A position that has a null among its alternatives, anywhere: topicMatched answers for every log
-- as if the position were null itself. The bloom filter does not: it passes over a block whose bloom
-- contains none of the position's other alternatives, whatever logs the block has, and whatever the
-- addresses and the other positions are.
pub bloom_filter-nested_null :
    (check : ℕ → Bool) (addresses : List ℕ) (topics : NormalizedTopics) (i : ℕ)
    (alts : List (Option ℕ))
    → get_elem? topics i ≡ some (some alts)
    → HasNull alts
    → any (topic_in_bloom check) alts ≡ false
    → ((ts : List ℕ)
        → (topic_matched topics ts ≡ true) ↔ (topic_matched (set topics i none) ts ≡ true))
      × (bloom_filter check addresses topics ≡ false)
unfolding bloom_filter
bloom_filter-nested_null check addresses topics i alts e h miss =
    let missed = bloom_topics-miss check topics i alts e h miss in
    (
      λ ts.
          let (fwd, back) = topic_matched-Matches topics ts in
          let (fwd', back') = topic_matched-Matches (set topics i none) ts in
          let (to, from) = Matches-wildcard topics i alts ts e h in
          (λ m. back' (to (fwd m)), λ m. back (from (fwd' m))),
      ground (arith, missed),
    )
