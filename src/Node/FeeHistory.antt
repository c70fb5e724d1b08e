-- ===== src/Node/FeeHistory.antt =====
-- `_getRewards` of node.ts: what the transactions of a block paid, at percentiles of its gas.
pub mod Percentiles
use hardhat.Prelude.{ℕ, ◌+◌, ◌*◌, ◌/◌, leb, List, [], ◌∷◌, Option, none, some, map, if◌then◌else◌}
use hardhat.Prelude.Int.{ℤ, pos, sub_ℕ, ltb_ℤ}
use hardhat.Transactions.{TypedTransaction, gas_price, fee_market}

-- `effectiveGasReward`, for a base fee
unfoldable pub effective_gas_reward : ℕ → TypedTransaction → ℤ
effective_gas_reward base_fee tx = elim (tx.fees) [
  | gas_price price ↦ sub_ℕ price base_fee
  | fee_market max_fee priority ↦
      let above = sub_ℕ max_fee base_fee in
      if ltb_ℤ (pos priority) above then pos priority else above
]

-- a reward and the gas used
abbrev pub Rewarded : Type 0
Rewarded = ℤ × ℕ

-- The stable sort by the reward that JavaScript's `sort` is, with the comparison `cmp`.
unfoldable pub insert_rewarded : Rewarded → List Rewarded → List Rewarded
insert_rewarded x [] = x ∷ []
insert_rewarded x (y ∷ ys) =
    let rest = insert_rewarded x ys in if ltb_ℤ y.0 x.0 then y ∷ rest else x ∷ y ∷ ys

unfoldable pub sort_rewarded : List Rewarded → List Rewarded
unfolding insert_rewarded
sort_rewarded [] = []
sort_rewarded (x ∷ xs) = insert_rewarded x (sort_rewarded xs)

-- the reward of the last element, or the given one of an empty list
unfoldable pub last_reward : ℤ → List Rewarded → ℤ
last_reward default [] = default
last_reward default (x ∷ xs) = last_reward x.0 xs

-- the loop over the sorted rewards, from the gas used so far; `final` is the last reward
unfoldable pub reward_at : ℕ → ℤ → ℕ → List Rewarded → ℤ
reward_at target final used [] = final
reward_at target final used (x ∷ xs) =
    let rest = reward_at target final (used + x.1) xs in
    if leb target (used + x.1) then x.0 else rest

-- What the method reads of a block: each transaction has the gas used of its receipt.
pub record RewardedBlock : Type 0 where
  pub base_fee : Option ℕ
  pub gas_limit : ℕ
  pub transactions : List (TypedTransaction × ℕ)

abbrev pub base_fee_or_0 : Option ℕ → ℕ
base_fee_or_0 none = 0
base_fee_or_0 (some fee) = fee

-- the rewards in the order of the transactions, with the gas of their receipts
unfoldable pub paid : RewardedBlock → List Rewarded
unfolding effective_gas_reward
paid b =
    map (λ (t : TypedTransaction × ℕ). (effective_gas_reward (base_fee_or_0 b.base_fee) t.0, t.1))
      b.transactions

unfoldable pub rewarded : RewardedBlock → List Rewarded
unfolding paid sort_rewarded
rewarded b = sort_rewarded (paid b)

-- The reward at a percentile, which is given as `Math.ceil(p * FLOATS_PRECISION)`.
unfoldable pub reward_for : RewardedBlock → ℕ → ℤ
unfolding rewarded last_reward reward_at
reward_for b scaled =
    let sorted = rewarded b in
    reward_at (b.gas_limit * scaled / 10_000_000) (last_reward (pos 0) sorted) 0 sorted

-- of a block without transactions each reward is 0
unfoldable pub get_rewards : RewardedBlock → List ℕ → List ℤ
unfolding reward_for
get_rewards b percentiles = elim (b.transactions) [
  | [] ↦ map (λ p. pos 0) percentiles
  | t ∷ ts ↦ map (reward_for b) percentiles
]
