-- ===== src/StackTraces/Identifier.antt =====
-- The class ContractsIdentifier of contracts-identifier.ts. The hex string that is the cache's key
-- is the list of the bytes that it stands for, and a trace is its code, with whether it is that of
-- a deployment.
use hardhat.Prelude.{
  ℕ, Bool, true, false, ◌&&◌, List, [], ◌∷◌, Option, none, some, last?, if◌then◌else◌,
}
use hardhat.Prelude.Int.{ℤ, pos, pos_part, ◌+ℤ◌}
use hardhat.Prelude.Dict.{lookup, store}
use hardhat.StackTraces.Bytecodes.{Bytecode}
use hardhat.StackTraces.Metadata.{is_matching_metadata}
use hardhat.StackTraces.Slices.{
  zero_out_addresses, zero_out_slices, normalize_library_runtime_bytecode_if_necessary,
}
use hardhat.StackTraces.Trie.{
  BytecodeTrie, depth, descendants, match_of, SearchResult, nothing, bytecode, trie, search, add,
  root,
}

pub record EvmMessageTrace : Type 0 where
  pub code : List ℕ
  pub is_create : Bool

abbrev pub matches_metadata : List ℕ → ℤ → Bool
matches_metadata code last_byte = elim (is_matching_metadata code last_byte) [
  | none ↦ false
  | some b ↦ b
]

abbrev pub is_empty {ℓ} : {A : Type ℓ} → List A → Bool
is_empty [] = true
is_empty (x ∷ xs) = false

-- the match of the node where the search stopped, if a deployment may go on behind it
abbrev pub deployment_match : Bool → Option Bytecode → Option Bytecode
deployment_match is_create none = none
deployment_match is_create (some b) = if is_create && b.is_deployment then some b else none

abbrev pub or_else : Option Bytecode → Option Bytecode → Option Bytecode
or_else none second = second
or_else (some b) second = some b

-- the end of `_searchBytecode`: the most recently added descendant, if only the metadata differs
abbrev pub metadata_match : List ℕ → BytecodeTrie → Option Bytecode
metadata_match code t = if matches_metadata code (depth t) then last? (descendants t) else none

-- `_searchBytecode` behind the search, with the loop over the descendants as a parameter
unfoldable pub resolve :
    Bool → List ℕ → (BytecodeTrie → Option Bytecode) → SearchResult → Option Bytecode
resolve is_create code libraries nothing = none
resolve is_create code libraries (bytecode b) = some b
resolve is_create code libraries (trie t) =
    or_else (deployment_match is_create (match_of t))
      (or_else (libraries t) (metadata_match code t))

-- `_searchBytecode` with `normalizeLibraries` false
unfoldable pub search_normalized : Bool → List ℕ → BytecodeTrie → ℕ → Option Bytecode
unfolding resolve
search_normalized is_create code t first_byte =
    resolve is_create code (λ u. none) (search t code first_byte)

abbrev pub has_nothing_to_normalize : Bytecode → Bool
has_nothing_to_normalize b = is_empty b.library_address_positions && is_empty b.immutable_references

-- the code with the libraries' addresses and the immutable values of a bytecode zeroed out
unfoldable pub zero_out : List ℕ → Bytecode → List ℕ
unfolding zero_out_addresses
zero_out code b =
    zero_out_slices (zero_out_addresses code b.library_address_positions) b.immutable_references

-- the loop over the descendants of the node where the search stopped
unfoldable pub try_libraries : Bool → List ℕ → BytecodeTrie → List Bytecode → Option Bytecode
unfolding zero_out search_normalized
try_libraries is_create code t [] = none
try_libraries is_create code t (b ∷ bs) =
    let rest = try_libraries is_create code t bs in
    let first_byte = pos_part (depth t +ℤ pos 1) in
    if has_nothing_to_normalize b
    then rest
    else or_else (search_normalized is_create (zero_out code b) t first_byte) rest

-- `_searchBytecode` with its default arguments
unfoldable pub search_bytecode : Bool → List ℕ → BytecodeTrie → Option Bytecode
unfolding try_libraries resolve
search_bytecode is_create code t =
    resolve is_create code (λ u. try_libraries is_create code u (descendants u)) (search t code 0)

abbrev pub Cache : Type 0
Cache = List (List ℕ × Bytecode)

pub record ContractsIdentifier : Type 0 where
  pub trie : BytecodeTrie
  pub cache : Cache
  pub enable_cache : Bool

abbrev pub init : Bool → ContractsIdentifier
init enable_cache = record { trie = root; cache = []; enable_cache = enable_cache }

unfoldable pub add_bytecode : Bytecode → ContractsIdentifier → ContractsIdentifier
add_bytecode b i = record i { trie = add b i.trie; cache = [] }

-- the result, and the cache behind it
unfoldable pub remember : List ℕ → Option Bytecode → ContractsIdentifier → ContractsIdentifier
remember code none i = i
remember code (some b) i = if i.enable_cache then record i { cache = store code b i.cache } else i

-- the cached bytecode, or the result of the search, which the cache keeps
unfoldable pub cached_or_searched :
    Option Bytecode
    → List ℕ
    → Option Bytecode
    → ContractsIdentifier
    → Option Bytecode × ContractsIdentifier
unfolding remember
cached_or_searched (some b) code result i = (some b, i)
cached_or_searched none code result i = (result, remember code result i)

unfoldable pub get_bytecode_from_message_trace :
    EvmMessageTrace → ContractsIdentifier → Option Bytecode × ContractsIdentifier
unfolding cached_or_searched search_bytecode
get_bytecode_from_message_trace trace i =
    let code = normalize_library_runtime_bytecode_if_necessary trace.code in
    cached_or_searched (if i.enable_cache then lookup code i.cache else none) code
      (search_bytecode trace.is_create code i.trie) i
