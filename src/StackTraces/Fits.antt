-- ===== src/StackTraces/Fits.antt =====
-- How a bytecode fits a code when the search does not zero anything out.
use mathlib.Core.List.{append_assoc}
use hardhat.Prelude.{
  ℕ, ◌≡◌, if◌then◌else◌, refl, sym, ap, ◌∙◌, subst, Bool, true, false, List, [], ◌∷◌, ◌++◌, Option,
  none, some, ◌⊎◌, keep, last?, length, inl, inr, Bool-cases, Option-cases, arith,
}
use hardhat.StackTraces.Bytecodes.{Bytecode}
use hardhat.StackTraces.Identifier.{
  resolve, or_else, deployment_match, metadata_match, matches_metadata,
}
use hardhat.StackTraces.Searches.{
  depth_at, whole, part, search_at-Went, view_reached, view_unreached, add_all-HasDepths,
  root-HasDepths,
}
use hardhat.StackTraces.Trie.{
  BytecodeTrie, depth, child_nodes, get_child, descendants, match_of, trie, match_result, add_all,
  root, search_at,
}
use hardhat.StackTraces.Walks.{walk, has_code, extends, reached}

pub or_else-cases :
    (o second : Option Bytecode) (b : Bytecode)
    → or_else o second ≡ some b
    → (o ≡ some b) ⊎ (second ≡ some b)
or_else-cases none second b h = inr h
or_else-cases (some a) second b h = inl h

guarded :
    (test : Bool) (a b : Bytecode)
    → ◌≡◌ {A = Option Bytecode} (if test then some a else none) (some b)
    → (a ≡ b) × (test ≡ true)
guarded true a b h = (cc, refl)
guarded false a b h = cc

deployment-cases :
    (is_create : Bool) (o : Option Bytecode) (b : Bytecode)
    → deployment_match is_create o ≡ some b
    → (o ≡ some b) × (is_create ≡ true) × (b.is_deployment ≡ true)
deployment-cases is_create none b h = cc
deployment-cases false (some a) b h = cc
deployment-cases true (some a) b h =
    let (same, deployment) = guarded a.is_deployment a b h in
    (ap some same, refl, subst (λ (c : Bytecode). c.is_deployment ≡ true) same deployment)

walk-append : (p q : List ℕ) (t u : BytecodeTrie) → walk p t ≡ some u → walk (p ++ q) t ≡ walk q u
unfolding walk
walk-append [] q t u w = let same : t ≡ u = cc in ap (walk q) same
walk-append (x ∷ p) q t u w = elim (Option-cases (get_child x (child_nodes t))) [
  | inl e ↦ absurd (ground arith)
  | inr (c, e) ↦ rw (e, walk) (walk-append p q c u (ground arith))
]

resolve-match :
    (is_create : Bool) (code : List ℕ) (libraries : BytecodeTrie → Option Bytecode)
    (o : Option Bytecode) (b : Bytecode)
    → resolve is_create code libraries (match_result o) ≡ some b
    → o ≡ some b
unfolding resolve
resolve-match is_create code libraries none b h = h
resolve-match is_create code libraries (some a) b h = h

module _ (is_create : Bool) (bs : List Bytecode) where
  -- How a bytecode fits a code, of which `path` is compared with the added codes and `tested` with
  -- the metadata. A node with the code `p` is the last one that the search reaches when no added
  -- code begins with `p` and the next byte.
  pub data Fits (path tested : List ℕ) (b : Bytecode) : Type 0 where
    -- it is the last bytecode that was added with exactly this code
    exact : last? (keep (has_code path) bs) ≡ some b → Fits path tested b
    -- in a deployment, it is the last one added with the longest beginning that is shared, and it
    -- is a deployment's
    deployed :
        (p : List ℕ) (x : ℕ) (rest : List ℕ)
        → path ≡ p ++ x ∷ rest
        → reached (p ++ x ∷ []) bs ≡ false
        → last? (keep (has_code p) bs) ≡ some b
        → is_create ≡ true
        → b.is_deployment ≡ true
        → Fits path tested b
    -- it is the last one added that goes on behind the longest beginning that is shared, and the
    -- code is in its metadata there
    other_metadata :
        (p : List ℕ) (x : ℕ) (rest : List ℕ)
        → path ≡ p ++ x ∷ rest
        → reached (p ++ x ∷ []) bs ≡ false
        → last? (keep (extends p) bs) ≡ some b
        → matches_metadata tested (depth_at (length p)) ≡ true
        → Fits path tested b

  -- a node behind which the search does not go on
  pub record Stops (path p : List ℕ) (u : BytecodeTrie) : Type 0 where
    pub at : walk p (add_all bs root) ≡ some u
    pub next : ℕ
    pub rest : List ℕ
    pub split : path ≡ p ++ next ∷ rest
    pub ends : reached (p ++ next ∷ []) bs ≡ false

  pub depth-at :
      (p : List ℕ) (u : BytecodeTrie)
      → walk p (add_all bs root) ≡ some u
      → depth u ≡ depth_at (length p)
  depth-at p u w = add_all-HasDepths bs root root-HasDepths p u w ∙ ap depth_at (omega arith)

  stopped-Fits :
      (path tested p : List ℕ) (u : BytecodeTrie) (libraries : BytecodeTrie → Option Bytecode)
      (b : Bytecode)
      → Stops path p u
      → resolve is_create tested libraries (trie u) ≡ some b
      → Fits path tested b ⊎ (libraries u ≡ some b)
  unfolding resolve
  stopped-Fits path tested p u libraries b s h =
      let (_, below, found) = view_reached p bs u s.at in
      elim (or_else-cases (deployment_match is_create (match_of u)) _ b h) [
        | inl d ↦
            let (o, create, deployment) = deployment-cases is_create (match_of u) b d in
            inl (deployed p s.next s.rest s.split s.ends (sym found ∙ o) create deployment)
        | inr h' ↦ elim (or_else-cases (libraries u) (metadata_match tested u) b h') [
          | inl l ↦ inr l
          | inr m ↦ elim (Bool-cases (matches_metadata tested (depth u))) [
            | inl e ↦
                let last : last? (descendants u) ≡ some b = rw e at m in
                inl (
                  other_metadata p s.next s.rest s.split s.ends (ap last? (sym below) ∙ last)
                    (subst (λ d. matches_metadata tested d ≡ true) (depth-at p u s.at) e))
            | inr e ↦ let never : ◌≡◌ {A = Option Bytecode} none (some b) = rw e at m in cc
          ]
        ]
      ]

  -- a search that goes on from the node at the path `p`
  pub resolve-Fits :
      (tested p rest : List ℕ) (u : BytecodeTrie) (libraries : BytecodeTrie → Option Bytecode)
      (b : Bytecode)
      → walk p (add_all bs root) ≡ some u
      → resolve is_create tested libraries (search_at rest u) ≡ some b
      → Fits (p ++ rest) tested b
        ⊎ ((q : List ℕ) × (v : BytecodeTrie) × Stops (p ++ rest) q v × (libraries v ≡ some b))
  resolve-Fits tested p rest u libraries b w h = elim (search_at-Went rest u) [
    | whole v w' r ↦
        let there = walk-append p rest (add_all bs root) u w ∙ w' in
        let found = (view_reached (p ++ rest) bs v there).2 in
        let h' = subst (λ z. resolve is_create tested libraries z ≡ some b) r h in
        inl (exact (sym found ∙ resolve-match is_create tested libraries (match_of v) b h'))
    | part q x more v split w' stop r ↦
        let there = walk-append p q (add_all bs root) u w ∙ w' in
        let missing = walk-append p (q ++ x ∷ []) (add_all bs root) u w ∙ stop in
        let stops : Stops (p ++ rest) (p ++ q) v = record {
          at = there;
          next = x;
          rest = more;
          split = ap (λ l. p ++ l) split ∙ sym (append_assoc p q (x ∷ more));
          ends = view_unreached ((p ++ q) ++ x ∷ []) bs (
              subst (λ l. walk l (add_all bs root) ≡ none) (sym (append_assoc p q (x ∷ [])))
                missing);
        } in
        let h' = subst (λ z. resolve is_create tested libraries z ≡ some b) r h in
        elim (stopped-Fits (p ++ rest) tested (p ++ q) v libraries b stops h') [
          | inl fits ↦ inl fits
          | inr l ↦ inr (p ++ q, v, stops, l)
        ]
  ]
