-- ===== src/ContractNames.antt =====
-- Fully qualified names of contracts: packages/hardhat-core/src/utils/contract-names.ts. A string is
-- the list of its UTF-16 code units.
pub mod RoundTrip
use hardhat.Prelude.{
  ℕ, Bool, true, false, ◌==◌, List, [], ◌∷◌, ◌++◌, Option, none, some, any, if◌then◌else◌,
}

-- ":"
abbrev pub colon : ℕ
colon = 58

unfoldable pub get_fully_qualified_name : List ℕ → List ℕ → List ℕ
get_fully_qualified_name source_name contract_name = source_name ++ colon ∷ contract_name

unfoldable pub is_fully_qualified_name : List ℕ → Bool
is_fully_qualified_name name = any (λ c. c == colon) name

-- A character in front of what `split` gives. It never gives an empty array.
abbrev pub put_first : ℕ → List (List ℕ) → List (List ℕ)
put_first c [] = (c ∷ []) ∷ []
put_first c (p ∷ ps) = (c ∷ p) ∷ ps

-- `name.split(":")`
unfoldable pub split : List ℕ → List (List ℕ)
split [] = [] ∷ []
split (c ∷ cs) = let rest = split cs in if c == colon then [] ∷ rest else put_first c rest

-- `parts.join(":")`
unfoldable pub join : List (List ℕ) → List ℕ
join [] = []
join (p ∷ []) = p
join (p ∷ q ∷ ps) = p ++ colon ∷ join (q ∷ ps)

-- the last part, and the parts before it
unfoldable pub unsnoc : List ℕ → List (List ℕ) → List (List ℕ) × List ℕ
unsnoc p [] = ([], p)
unsnoc p (q ∷ ps) = let rest = unsnoc q ps in (p ∷ rest.0, rest.1)

unfoldable pub parse_name : List ℕ → Option (List ℕ) × List ℕ
unfolding split join unsnoc
parse_name name = elim (split name) [
  | [] ↦ (none, [])
  | p ∷ ps ↦ elim ps [
    | [] ↦ (none, p)
    | q ∷ qs ↦ let parts = unsnoc p (q ∷ qs) in (some (join parts.0), parts.1)
  ]
]

-- none for the HardhatError
abbrev pub require_source : Option (List ℕ) × List ℕ → Option (List ℕ × List ℕ)
require_source (none, contract_name) = none
require_source (some source_name, contract_name) = some (source_name, contract_name)

unfoldable pub parse_fully_qualified_name : List ℕ → Option (List ℕ × List ℕ)
unfolding parse_name
parse_fully_qualified_name name = require_source (parse_name name)
