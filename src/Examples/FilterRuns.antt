-- ===== src/Examples/FilterRuns.antt =====
-- The theorems on log filters at a filter with two positions.
use hardhat.Prelude.{
  ℕ, ◌≡◌, refl, Bool, true, false, ◌==◌, ◌||◌, ◌↔◌, List, [], ◌∷◌, none, some, inr,
}
use hardhat.Filters.Bloom.{bloom_filter-passes, bloom_filter-nested_null}
use hardhat.Filters.Criteria.{NormalizedTopics, bloom_filter, topic_matched, includes}
use hardhat.Filters.Matching.{Matches, topic_matched-Matches}

-- any topic first, then 4 or 5
abbrev two_positions : NormalizedTopics
two_positions = none ∷ some (some 4 ∷ some 5 ∷ []) ∷ []

-- a bloom with the address 1 and the topics 3 and 5
abbrev contained : ℕ → Bool
contained t = t == 1 || t == 3 || t == 5

topic_matched-Matches_example :
    (topic_matched two_positions (3 ∷ 5 ∷ []) ≡ true) ↔ Matches two_positions (3 ∷ 5 ∷ [])
topic_matched-Matches_example = topic_matched-Matches two_positions (3 ∷ 5 ∷ [])

bloom_filter-passes_example : bloom_filter contained (1 ∷ []) two_positions ≡ true
unfolding includes topic_matched
bloom_filter-passes_example =
    bloom_filter-passes contained (1 ∷ []) two_positions 1 (3 ∷ 5 ∷ []) (tt, tt) refl
      (refl, (refl, tt)) (inr refl) refl

-- the null behind the 4, in the second position
abbrev nested : NormalizedTopics
nested = some (some 3 ∷ []) ∷ some (some 4 ∷ none ∷ []) ∷ []

bloom_filter-nested_null_example :
    ((ts : List ℕ)
      → (topic_matched nested ts ≡ true)
        ↔ (topic_matched (some (some 3 ∷ []) ∷ none ∷ []) ts ≡ true))
    × (bloom_filter contained (1 ∷ []) nested ≡ false)
bloom_filter-nested_null_example =
    bloom_filter-nested_null contained (1 ∷ []) nested 1 (some 4 ∷ none ∷ []) refl tt refl
