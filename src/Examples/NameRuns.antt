-- ===== src/Examples/NameRuns.antt =====
-- The contract "C" of the source "a:b".
use hardhat.Prelude.{ℕ, ◌≡◌, refl, true, none, some, List, [], ◌∷◌}
use hardhat.ContractNames.{
  get_fully_qualified_name, is_fully_qualified_name, parse_fully_qualified_name, parse_name, split,
}
use hardhat.ContractNames.RoundTrip.{parse-get_fully_qualified}

abbrev source_name : List ℕ
source_name = 97 ∷ 58 ∷ 98 ∷ []

parse-get_fully_qualified_example :
    (is_fully_qualified_name (get_fully_qualified_name source_name (67 ∷ [])) ≡ true)
    × (parse_fully_qualified_name (get_fully_qualified_name source_name (67 ∷ []))
        ≡ some (source_name, 67 ∷ []))
unfolding is_fully_qualified_name
parse-get_fully_qualified_example = parse-get_fully_qualified source_name (67 ∷ []) refl

bare_name_is_refused : parse_fully_qualified_name (67 ∷ []) ≡ none
unfolding parse_fully_qualified_name parse_name split
bare_name_is_refused = refl
