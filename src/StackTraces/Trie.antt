-- ===== src/StackTraces/Trie.antt =====
-- The class BytecodeTrie of contracts-identifier.ts. The children of a node are an association list
-- in the order of insertion, as the keys of a Map are.
use hardhat.Prelude.{
  ℕ, suc, ◌≡◌, refl, List, [], ◌∷◌, ◌++◌, Option, none, some, drop, length, ltb, ◌==◌,
  if◌then◌else◌, arith,
}
use hardhat.Prelude.Int.{ℤ, pos, negsuc}
use hardhat.StackTraces.Bytecodes.{Bytecode}

mutual
  -- depth, descendants, match and childNodes
  pub data BytecodeTrie : Type 0 where
    node : ℤ → List Bytecode → Option Bytecode → ChildNodes → BytecodeTrie

  pub data ChildNodes : Type 0 where
    no_child : ChildNodes
    child : ℕ → BytecodeTrie → ChildNodes → ChildNodes

abbrev pub depth : BytecodeTrie → ℤ
depth (node d ds m cs) = d

abbrev pub descendants : BytecodeTrie → List Bytecode
descendants (node d ds m cs) = ds

abbrev pub match_of : BytecodeTrie → Option Bytecode
match_of (node d ds m cs) = m

abbrev pub child_nodes : BytecodeTrie → ChildNodes
child_nodes (node d ds m cs) = cs

-- `new BytecodeTrie(depth)`
abbrev pub new_trie : ℤ → BytecodeTrie
new_trie d = node d [] none no_child

abbrev pub get_child : ℕ → ChildNodes → Option BytecodeTrie
get_child k no_child = none
get_child k (child j t cs) = if j == k then some t else get_child k cs

abbrev pub set_child : ℕ → BytecodeTrie → ChildNodes → ChildNodes
set_child k u no_child = child k u no_child
set_child k u (child j t cs) = if j == k then child k u cs else child j t (set_child k u cs)

abbrev pub child_or_new : ℕ → Option BytecodeTrie → BytecodeTrie
child_or_new i none = new_trie (pos i)
child_or_new i (some t) = t

-- The loop of `add`, at the index `i` with the rest of the code in front of it. A child that is
-- changed is the child that the node has.
unfoldable pub add_at : Bytecode → ℕ → List ℕ → BytecodeTrie → BytecodeTrie
add_at bytecode i [] (node d ds m cs) = node d ds (some bytecode) cs
add_at bytecode i (byte ∷ code) (node d ds m cs) =
    node d (ds ++ bytecode ∷ []) m
      (set_child byte (add_at bytecode (suc i) code (child_or_new i (get_child byte cs))) cs)

unfoldable pub add : Bytecode → BytecodeTrie → BytecodeTrie
unfolding add_at
add bytecode t = add_at bytecode 0 bytecode.normalized_code t

-- what `search` returns
pub data SearchResult : Type 0 where
  nothing : SearchResult
  bytecode : Bytecode → SearchResult
  trie : BytecodeTrie → SearchResult

abbrev pub match_result : Option Bytecode → SearchResult
match_result none = nothing
match_result (some b) = bytecode b

-- the loop of `search`, with the rest of the code in front of it
unfoldable pub search_at : List ℕ → BytecodeTrie → SearchResult
search_at [] t = match_result (match_of t)
search_at (byte ∷ code) t = elim (get_child byte (child_nodes t)) [
  | none ↦ trie t
  | some u ↦ search_at code u
]

unfoldable pub search : BytecodeTrie → List ℕ → ℕ → SearchResult
unfolding search_at
search t code current_code_byte =
    if ltb (length code) current_code_byte
    then nothing
    else search_at (drop current_code_byte code) t

-- the trie after the bytecodes have been added in this order
unfoldable pub add_all : List Bytecode → BytecodeTrie → BytecodeTrie
unfolding add
add_all [] t = t
add_all (b ∷ bs) t = add_all bs (add b t)

-- `new BytecodeTrie(-1)`
abbrev pub root : BytecodeTrie
root = new_trie (negsuc 0)

pub get_child-set_child :
    (k j : ℕ) (u : BytecodeTrie) (cs : ChildNodes)
    → get_child j (set_child k u cs) ≡ (if k == j then some u else get_child j cs)
get_child-set_child k j u no_child = refl
get_child-set_child k j u (child i t cs) = ground (arith, get_child-set_child k j u cs)
