-- ===== src/Node/GasEstimation.antt =====
-- `_correctInitialEstimation` and `_binarySearchEstimation` of node.ts. `runs` says whether the
-- transaction, run with a gas limit and reverted, ends without an exception: it stands for
-- `_runTxAndRevertMutations` in the context of the block.
pub mod Search
use hardhat.Prelude.{
  ℕ, zero, suc, ◌+◌, ◌-◌, ◌*◌, ◌/◌, Bool, true, false, ltb, leb, ◌==◌, if◌then◌else◌, Option, none,
  some,
}

-- how close the search comes, by the highest failing estimation
unfoldable pub min_diff : ℕ → ℕ
min_diff failing =
    if leb 4_000_000 failing
    then 50_000
    else if leb 1_000_000 failing
    then 10_000
    else if leb 100_000 failing
    then 1_000
    else if leb 50_000 failing
    then 500
    else if leb 30_000 failing
    then 300
    else 200

-- `newEstimation`, of the highest failing and the lowest successful one
unfoldable pub new_estimation : ℕ → ℕ → ℕ → ℕ
new_estimation round failing successful =
    let middle = failing + (successful - failing) / 2 in
    let optimized = if round == 0 then 3 * failing else middle in
    if ltb middle optimized then middle else optimized

module _ (runs : ℕ → Bool) where
  -- The source recurs without fuel, and stops by its round number; `none` is the end of the fuel.
  unfoldable pub binary_search_estimation : ℕ → ℕ → ℕ → ℕ → Option ℕ
  binary_search_estimation zero failing successful round = none
  binary_search_estimation (suc fuel) failing successful round =
      let new = new_estimation round failing successful in
      if leb successful failing
      then some successful
      else if leb (successful - failing) (min_diff failing)
      then some successful
      else if ltb 20 round
      then some successful
      else elim (runs new) [
        | true ↦ binary_search_estimation fuel failing new (round + 1)
        | false ↦ binary_search_estimation fuel new successful (round + 1)
      ]

  -- for a transaction of an intrinsic cost, a block gas limit and a first estimation
  unfoldable pub correct_initial_estimation : ℕ → ℕ → ℕ → Option ℕ
  correct_initial_estimation base_fee block_gas_limit initial =
      let estimation = if leb initial base_fee then base_fee + 1 else initial in
      if runs estimation
      then some estimation
      else binary_search_estimation 22 estimation block_gas_limit 0
