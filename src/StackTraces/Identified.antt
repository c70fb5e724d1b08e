-- ===== src/StackTraces/Identified.antt =====
-- Which bytecode a code is identified as.
use hardhat.Prelude.{
  ℕ, ◌≡◌, refl, sym, ap, ◌∙◌, Bool, true, false, List, [], ◌∷◌, ◌++◌, none, some, keep, last?, inl,
  inr, Bool-cases, Option-cases, arith,
}
use hardhat.StackTraces.Bytecodes.{Bytecode}
use hardhat.StackTraces.Trie.{
  BytecodeTrie, child_nodes, get_child, descendants, match_of, bytecode, trie, match_result,
  add_all, root, search, search_at,
}
use hardhat.StackTraces.Identifier.{resolve, search_bytecode}
use hardhat.StackTraces.Searches.{search-from_0}
use hardhat.StackTraces.Walks.{walk, view, view-root, unprefixed, held, reached, has_code}

walk-search :
    (p : List ℕ) (x : ℕ) (rest : List ℕ) (t u : BytecodeTrie)
    → walk p t ≡ some u
    → walk (p ++ x ∷ []) t ≡ none
    → search_at (p ++ x ∷ rest) t ≡ trie u
unfolding walk search_at
walk-search [] x rest t u w stop = ground arith
walk-search (y ∷ p) x rest t u w stop = elim (Option-cases (get_child y (child_nodes t))) [
  | inl e ↦ absurd (ground arith)
  | inr (c, e) ↦ rw (e, search_at) (walk-search p x rest c u (ground arith) (ground arith))
]

walk-exact :
    (p : List ℕ) (t u : BytecodeTrie)
    → walk p t ≡ some u
    → search_at p t ≡ match_result (match_of u)
unfolding walk search_at
walk-exact [] t u w = ground arith
walk-exact (y ∷ p) t u w = elim (Option-cases (get_child y (child_nodes t))) [
  | inl e ↦ absurd (ground arith)
  | inr (c, e) ↦ rw (e, search_at) (walk-exact p c u (ground arith))
]

-- a path that is reached leads to a node with what is held there
reached-walk :
    (p : List ℕ) (bs : List Bytecode)
    → reached p bs ≡ true
    → (u : BytecodeTrie) × (walk p (add_all bs root) ≡ some u)
      × (match_of u ≡ last? (keep (has_code p) bs))
unfolding view
reached-walk p bs e = elim (Option-cases (walk p (add_all bs root))) [
  | inl w ↦ absurd (ground (arith, view-root p bs))
  | inr (u, w) ↦
      let there : some (descendants u, match_of u) ≡ some (held p bs) =
        ground (arith, view-root p bs) in
      (u, w, ground arith)
]

unreached-walk :
    (p : List ℕ) (bs : List Bytecode) → reached p bs ≡ false → walk p (add_all bs root) ≡ none
unfolding view
unreached-walk p bs e = elim (Option-cases (walk p (add_all bs root))) [
  | inl w ↦ w
  | inr (u, w) ↦ absurd (ground (arith, view-root p bs))
]

last-reached :
    (p : List ℕ) (bs : List Bytecode) (b : Bytecode)
    → last? (keep (has_code p) bs) ≡ some b
    → reached p bs ≡ true
last-reached [] bs b h = refl
last-reached (x ∷ p) bs b h = elim (Bool-cases (reached (x ∷ p) bs)) [
  | inl e ↦ e
  | inr e ↦
      let none_there = (unprefixed (x ∷ p) bs e).1 in
      absurd (none_some (ap last? (sym none_there) ∙ h))
]
  where
    none_some : none ≡ some b → ⊥
    none_some e = cc

-- Code that equals an added code, in a deployment or not, is identified as the last bytecode that
-- was added with it.
pub search_bytecode-exact :
    (is_create : Bool) (bs : List Bytecode) (code : List ℕ) (b : Bytecode)
    → last? (keep (has_code code) bs) ≡ some b
    → search_bytecode is_create code (add_all bs root) ≡ some b
unfolding search_bytecode resolve
search_bytecode-exact is_create bs code b h =
    let (u, w, m) = reached-walk code bs (last-reached code bs b h) in
    let found : search (add_all bs root) code 0 ≡ bytecode b =
      search-from_0 (add_all bs root) code
      ∙ walk-exact code (add_all bs root) u w
      ∙ ap match_result (m ∙ h) in
    rw found refl

-- The code of a deployment that goes on behind the whole deployment bytecode that was added last
-- with this code, with arguments of which no added code has the first byte there, is identified as
-- that bytecode.
pub search_bytecode-deployment :
    (bs : List Bytecode) (code : List ℕ) (x : ℕ) (arguments : List ℕ) (b : Bytecode)
    → last? (keep (has_code code) bs) ≡ some b
    → b.is_deployment ≡ true
    → reached (code ++ x ∷ []) bs ≡ false
    → search_bytecode true (code ++ x ∷ arguments) (add_all bs root) ≡ some b
unfolding search_bytecode resolve
search_bytecode-deployment bs code x arguments b h d r =
    let (u, w, m) = reached-walk code bs (last-reached code bs b h) in
    let found : search (add_all bs root) (code ++ x ∷ arguments) 0 ≡ trie u =
      search-from_0 (add_all bs root) (code ++ x ∷ arguments)
      ∙ walk-search code x arguments (add_all bs root) u w (unreached-walk _ bs r) in
    rw (found, m, h, d) refl
