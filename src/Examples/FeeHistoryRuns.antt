-- ===== src/Examples/FeeHistoryRuns.antt =====
-- The rewards of a block with two transactions.
use hardhat.Prelude.{◌≡◌, refl, [], ◌∷◌, some, arith}
use hardhat.Prelude.Int.{pos, ◌≤ℤ◌}
use hardhat.Examples.Libraries.{transfer, impersonated}
use hardhat.Node.FeeHistory.{
  RewardedBlock, reward_for, get_rewards, rewarded, paid, effective_gas_reward, sort_rewarded,
  insert_rewarded, last_reward, reward_at,
}
use hardhat.Node.FeeHistory.Percentiles.{reward_for-monotone}
use hardhat.Transactions.{OrderedTransaction}

-- a transfer that pays 3 above the base fee, with half the gas, and one that pays 2
abbrev block : RewardedBlock
block = record {
  base_fee = some 7;
  gas_limit = 42000;
  transactions = (transfer 0 10, 21000) ∷ (impersonated, 21000) ∷ [];
}

-- at 10% and at 90%
lower_then_higher : get_rewards block (1000000 ∷ 9000000 ∷ []) ≡ pos 2 ∷ pos 3 ∷ []
unfolding get_rewards reward_for rewarded paid effective_gas_reward sort_rewarded insert_rewarded
    last_reward reward_at
lower_then_higher = refl

reward_for-monotone_example : reward_for block 1000000 ≤ℤ reward_for block 9000000
reward_for-monotone_example = reward_for-monotone block 1000000 9000000 (omega arith)

abbrev ordered_impersonated : OrderedTransaction
ordered_impersonated = record { order_id = 3; tx = impersonated }
