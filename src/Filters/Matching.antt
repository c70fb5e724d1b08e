-- ===== src/Filters/Matching.antt =====
-- What `topicMatched` decides: each criterion is met by the topic in its position.
use hardhat.Prelude.{
  ℕ, zero, suc, ◌+◌, ◌≤◌, ◌≡◌, ◌↔◌, refl, sym, subst, Bool, true, false, ltb, ◌==◌, ==_iff,
  if◌then◌else◌, List, [], ◌∷◌, Option, none, some, any, length, get_elem?, drop, ◌⊎◌, inl, inr,
  Bool-cases, arith,
}
use hardhat.Filters.Criteria.{
  NormalizedTopics, is_wildcard, alternatives, topic_matches, topic_loop, topic_matched,
}

-- a null alternative, or the topic itself
abbrev pub OneOf : List (Option ℕ) → ℕ → Type 0
OneOf [] t = ⊥
OneOf (none ∷ subs) t = Unit
OneOf (some a ∷ subs) t = (a ≡ t) ⊎ OneOf subs t

-- Every criterion has a topic in its position, which is one of the alternatives unless there are
-- none. Further topics do not matter.
abbrev pub Matches : NormalizedTopics → List ℕ → Type 0
Matches [] ts = Unit
Matches (sub ∷ subs) [] = ⊥
Matches (none ∷ subs) (t ∷ ts) = Matches subs ts
Matches (some [] ∷ subs) (t ∷ ts) = Matches subs ts
Matches (some (a ∷ alts) ∷ subs) (t ∷ ts) = OneOf (a ∷ alts) t × Matches subs ts

any-OneOf :
    (alts : List (Option ℕ)) (t : ℕ) → (any (topic_matches (some t)) alts ≡ true) ↔ OneOf alts t
any-OneOf [] t = (λ h. cc, λ h. absurd h)
any-OneOf (none ∷ alts) t = (λ h. tt, λ h. refl)
any-OneOf (some a ∷ alts) t =
    let (fwd, back) = any-OneOf alts t in
    (
      λ h. elim (Bool-cases (t == a)) [
        | inl e ↦ inl (sym ((==_iff t a).0 e))
        | inr e ↦ inr (fwd (ground (arith, e, h)))
      ],
      λ h. elim h [ inl e ↦ ground (arith, e) | inr o ↦ ground (arith, back o) ],
    )

Matches-length : (subs : NormalizedTopics) (ts : List ℕ) → Matches subs ts → length subs ≤ length ts
Matches-length [] ts h = omega arith
Matches-length (sub ∷ subs) [] h = absurd h
Matches-length (none ∷ subs) (t ∷ ts) h = omega (arith, Matches-length subs ts h)
Matches-length (some [] ∷ subs) (t ∷ ts) h = omega (arith, Matches-length subs ts h)
Matches-length (some (a ∷ alts) ∷ subs) (t ∷ ts) h = omega (arith, Matches-length subs ts h.1)

drop-cases :
    (i : ℕ) (l : List ℕ)
    → ((drop i l ≡ []) × (length l ≤ i))
      ⊎ ((t : ℕ) × (ts : List ℕ) × (drop i l ≡ t ∷ ts)
          × (get_elem? l i ≡ some t)
          × (drop (i + 1) l ≡ ts)
          × (length l ≡ i + suc (length ts)))
drop-cases zero [] = inl (refl, omega arith)
drop-cases zero (t ∷ ts) = inr (t, ts, refl, refl, refl, omega arith)
drop-cases (suc i) [] = inl (refl, omega arith)
drop-cases (suc i) (x ∷ l) = elim (drop-cases i l) [
  | inl (e, h) ↦ inl (e, omega arith)
  | inr (t, ts, e, g, n, h) ↦ inr (t, ts, e, g, ground (arith, n), omega (arith, h))
]

-- one position
meets :
    (sub : Option (List (Option ℕ))) (subs : NormalizedTopics) (t : ℕ) (ts : List ℕ) (rest : Bool)
    → (rest ≡ true) ↔ Matches subs ts
    → ((if is_wildcard sub
          then rest
          else if any (topic_matches (some t)) (alternatives sub)
          then rest
          else false)
        ≡ true)
      ↔ Matches (sub ∷ subs) (t ∷ ts)
meets none subs t ts rest h = h
meets (some []) subs t ts rest h = h
meets (some (a ∷ alts)) subs t ts rest h =
    let (fwd, back) = any-OneOf (a ∷ alts) t in
    elim (Bool-cases (any (topic_matches (some t)) (a ∷ alts))) [
      | inl e ↦ rw e (λ r. (fwd e, h.0 r), λ m. h.1 m.1)
      | inr e ↦ rw e (λ r. cc, λ m. absurd (ground (arith, back m.0, e)))
    ]

topic_loop-Matches :
    (count : ℕ) (l : List ℕ) (i : ℕ) (subs : NormalizedTopics)
    → count ≡ i + length subs
    → (topic_loop count l i subs ≡ true) ↔ Matches subs (drop i l)
unfolding topic_loop
topic_loop-Matches count l i [] e = (λ h. tt, λ h. refl)
topic_loop-Matches count l i (sub ∷ subs) e = elim (drop-cases i l) [
  | inl (empty, short) ↦
      let fails : ltb (length l) count ≡ true = ground (arith, e, short) in
      rw (fails, empty) (λ h. cc, λ h. absurd h)
  | inr (t, ts, at, here, next, size) ↦
      let rest = topic_loop-Matches count l (i + 1) subs (omega arith) in
      let met =
        meets sub subs t ts (topic_loop count l (i + 1) subs)
          (subst (λ q. (topic_loop count l (i + 1) subs ≡ true) ↔ Matches subs q) next rest) in
      elim (Bool-cases (ltb (length l) count)) [
        | inl short ↦
            rw (short, at)
              (λ h. cc, λ h. absurd (ground (arith, short, Matches-length (sub ∷ subs) (t ∷ ts) h)))
        | inr long ↦ rw (long, at, here) met
      ]
]

-- `topicMatched` answers true exactly when every criterion is met by the log's topic in its
-- position: null and the empty list are met by any topic, a list by one of its members, and a null
-- in a list by any.
pub topic_matched-Matches :
    (topics : NormalizedTopics) (log_topics : List ℕ)
    → (topic_matched topics log_topics ≡ true) ↔ Matches topics log_topics
unfolding topic_matched
topic_matched-Matches topics log_topics =
    topic_loop-Matches (length topics) log_topics 0 topics (omega arith)
