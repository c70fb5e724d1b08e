-- ===== src/StackTraces/Searches.antt =====
-- Searching a trie of bytecodes, against the list of the bytecodes that were added to it.
use hardhat.Prelude.{
  ℕ, zero, suc, ◌+◌, ◌≡◌, refl, sym, ap, subst, ◌∙◌, true, false, List, [], ◌∷◌, ◌++◌, Option, none,
  some, length, keep, last?, ◌==◌, if◌then◌else◌, inl, inr, Bool-cases, Option-cases, arith,
}
use hardhat.Prelude.Int.{ℤ, pos, negsuc}
use hardhat.StackTraces.Bytecodes.{Bytecode}
use hardhat.StackTraces.Trie.{
  BytecodeTrie, node, depth, descendants, match_of, child_nodes, get_child, child_or_new, add_at,
  add, add_all, root, get_child-set_child, SearchResult, trie, match_result, search_at, search,
}
use hardhat.StackTraces.Walks.{walk, view, view-root, held, reached, extends, has_code}

-- the depth of a node at a path of this length
abbrev pub depth_at : ℕ → ℤ
depth_at zero = negsuc 0
depth_at (suc n) = pos n

abbrev pub HasDepths : ℕ → BytecodeTrie → Type 0
HasDepths k t =
    (p : List ℕ) (u : BytecodeTrie) → walk p t ≡ some u → depth u ≡ depth_at (k + length p)

walk_child :
    (x : ℕ) (p : List ℕ) (t c u : BytecodeTrie)
    → get_child x (child_nodes t) ≡ some c
    → walk p c ≡ some u
    → walk (x ∷ p) t ≡ some u
unfolding walk
walk_child x p t c u e h = ground arith

walk_cons :
    (x : ℕ) (p : List ℕ) (t u : BytecodeTrie)
    → walk (x ∷ p) t ≡ some u
    → (c : BytecodeTrie) × (get_child x (child_nodes t) ≡ some c) × (walk p c ≡ some u)
unfolding walk
walk_cons x p t u w = elim (Option-cases (get_child x (child_nodes t))) [
  | inl e ↦ absurd (ground arith)
  | inr (c, e) ↦ (c, e, ground arith)
]

child-HasDepths :
    (i x : ℕ) (t : BytecodeTrie) (o : Option BytecodeTrie)
    → get_child x (child_nodes t) ≡ o
    → HasDepths i t
    → HasDepths (suc i) (child_or_new i o)
unfolding walk
child-HasDepths i x t none e h [] u w =
    let here : child_or_new i none ≡ u = cc in
    ap depth (sym here) ∙ ap depth_at {x = suc i} (omega arith)
child-HasDepths i x t none e h (y ∷ p) u w = cc
child-HasDepths i x t (some c) e h p u w =
    h (x ∷ p) u (walk_child x p t c u e w) ∙ ap depth_at (omega arith)

add_at-HasDepths :
    (b : Bytecode) (code : List ℕ) (i : ℕ) (t : BytecodeTrie)
    → HasDepths i t
    → HasDepths i (add_at b i code t)
unfolding walk add_at
add_at-HasDepths b [] i (node d ds m cs) h [] u w =
    let here : node d ds (some b) cs ≡ u = cc in ap depth (sym here) ∙ h [] (node d ds m cs) refl
add_at-HasDepths b [] i (node d ds m cs) h (x ∷ p) u w = h (x ∷ p) u w
add_at-HasDepths b (y ∷ code) i (node d ds m cs) h [] u w =
    let here : add_at b i (y ∷ code) (node d ds m cs) ≡ u = cc in
    ap depth (sym here) ∙ h [] (node d ds m cs) refl
add_at-HasDepths b (y ∷ code) i (node d ds m cs) h (x ∷ p) u w =
    let old = child_or_new i (get_child y cs) in
    let new = add_at b (suc i) code old in
    let deeper =
      add_at-HasDepths b code (suc i) old
        (child-HasDepths i y (node d ds m cs) (get_child y cs) refl h) in
    let (c, found, w') = walk_cons x p (add_at b i (y ∷ code) (node d ds m cs)) u w in
    let chosen : (if y == x then some new else get_child x cs) ≡ some c =
      sym (get_child-set_child y x new cs) ∙ found in
    elim (Bool-cases (y == x)) [
      | inl e ↦
          let same : new ≡ c = ground (arith) in
          deeper p u (subst (λ t. walk p t ≡ some u) (sym same) w') ∙ ap depth_at (omega arith)
      | inr e ↦ h (x ∷ p) u (walk_child x p (node d ds m cs) c u (ground arith) w')
    ]

pub root-HasDepths : HasDepths 0 root
unfolding walk
root-HasDepths [] u w = let here : root ≡ u = cc in ap depth (sym here)
root-HasDepths (x ∷ p) u w = cc

pub add_all-HasDepths :
    (bs : List Bytecode) (t : BytecodeTrie) → HasDepths 0 t → HasDepths 0 (add_all bs t)
unfolding add_all add
add_all-HasDepths [] t h = h
add_all-HasDepths (b ∷ bs) t h =
    add_all-HasDepths bs (add b t) (add_at-HasDepths b b.normalized_code 0 t h)

-- how a search in a trie goes: along the whole code, or up to a node that has no child for a byte
pub data Went (code : List ℕ) (t : BytecodeTrie) : Type 0 where
  whole :
      (u : BytecodeTrie)
      → walk code t ≡ some u
      → search_at code t ≡ match_result (match_of u)
      → Went code t
  part :
      (p : List ℕ) (x : ℕ) (rest : List ℕ) (u : BytecodeTrie)
      → code ≡ p ++ x ∷ rest
      → walk p t ≡ some u
      → walk (p ++ x ∷ []) t ≡ none
      → search_at code t ≡ trie u
      → Went code t

pub search_at-Went : (code : List ℕ) (t : BytecodeTrie) → Went code t
unfolding search_at walk
search_at-Went [] t = whole t refl refl
search_at-Went (x ∷ code) t = elim (Option-cases (get_child x (child_nodes t))) [
  | inl e ↦ part [] x code t refl refl (ground arith) (ground arith)
  | inr (c, e) ↦ elim (search_at-Went code c) [
    | whole u w r ↦ whole u (ground arith) (ground arith)
    | part p y rest u split w stop r ↦
        part (x ∷ p) y rest u (ap (λ l. x ∷ l) split) (ground arith) (ground arith) (ground arith)
  ]
]

-- what a search finds once these bytecodes have been added
pub data Searched (code : List ℕ) (bs : List Bytecode) : SearchResult → Type 0 where
  -- the code is an added code or the beginning of one
  covered :
      reached code bs ≡ true → Searched code bs (match_result (last? (keep (has_code code) bs)))
  -- no added code begins with the path and the next byte, but some do with the path
  stuck :
      (p : List ℕ) (x : ℕ) (rest : List ℕ) (u : BytecodeTrie)
      → code ≡ p ++ x ∷ rest
      → reached p bs ≡ true
      → reached (p ++ x ∷ []) bs ≡ false
      → descendants u ≡ keep (extends p) bs
      → match_of u ≡ last? (keep (has_code p) bs)
      → depth u ≡ depth_at (length p)
      → Searched code bs (trie u)

-- what stands at a path that is reached, and that nothing stands at any other
pub view_reached :
    (p : List ℕ) (bs : List Bytecode) (u : BytecodeTrie)
    → walk p (add_all bs root) ≡ some u
    → (reached p bs ≡ true)
      × (descendants u ≡ keep (extends p) bs)
      × (match_of u ≡ last? (keep (has_code p) bs))
unfolding view
view_reached p bs u w = elim (Bool-cases (reached p bs)) [
  | inl e ↦
      let there : some (held p bs) ≡ some (descendants u, match_of u) =
        ground (arith, view-root p bs) in
      (e, ground (arith), ground (arith))
  | inr e ↦ absurd (ground (arith, view-root p bs))
]

pub view_unreached :
    (p : List ℕ) (bs : List Bytecode) → walk p (add_all bs root) ≡ none → reached p bs ≡ false
unfolding view
view_unreached p bs w = ground (arith, view-root p bs)

pub search-from_0 : (t : BytecodeTrie) (code : List ℕ) → search t code 0 ≡ search_at code t
unfolding search
search-from_0 t code = ground arith

-- A search from the root of a trie to which bytecodes have been added, in any order: a code that
-- equals an added code or is the beginning of one finds the last bytecode added with exactly this
-- code, or nothing if there is none; any other code finds the node of the longest beginning that it
-- shares with an added code, which has as descendants the bytecodes with a longer code with this
-- beginning, in the order of adding, as match the last one with exactly it, and its length less one
-- as depth.
pub search-Searched :
    (bs : List Bytecode) (code : List ℕ) → Searched code bs (search (add_all bs root) code 0)
search-Searched bs code =
    let from_0 = sym (search-from_0 (add_all bs root) code) in
    elim (search_at-Went code (add_all bs root)) [
      | whole u w r ↦
          let (e, _, found) = view_reached code bs u w in
          subst (Searched code bs) (ap match_result (sym found) ∙ sym r ∙ from_0) (covered e)
      | part p x rest u split w stop r ↦
          let (e, below, found) = view_reached p bs u w in
          subst (Searched code bs) (sym r ∙ from_0) (
            stuck p x rest u split e (view_unreached (p ++ x ∷ []) bs stop) below found
              (add_all-HasDepths bs root root-HasDepths p u w ∙ ap depth_at (omega arith)))
    ]
