-- ===== src/Node/FeeHistory/Percentiles.antt =====
-- The rewards of a block grow with the percentiles, and are the fees that the queue orders by.
use hardhat.Prelude.{
  ℕ, ◌+◌, ◌*◌, ◌/◌, ◌≤◌, ◌≡◌, leb, true, List, [], ◌∷◌, some, All, All-map, arith, inl, inr,
  Bool-cases,
}
use native.Mathlib.Nat.{mul-le-mul_left}
use hardhat.Prelude.Int.{ℤ, pos, ltb_ℤ, ◌≤ℤ◌}
use hardhat.Node.FeeHistory.{
  effective_gas_reward, Rewarded, insert_rewarded, sort_rewarded, last_reward, reward_at,
  RewardedBlock, paid, rewarded, reward_for,
}
use hardhat.Transactions.{OrderedTransaction}
use hardhat.TransactionQueue.Comparators.{get_effective_miner_fee, min}

abbrev pub AreAbove : ℤ → List Rewarded → Type 0
AreAbove a xs = All (λ (y : Rewarded). a ≤ℤ y.0) xs

abbrev pub IsAscending : List Rewarded → Type 0
IsAscending [] = Unit
IsAscending (x ∷ xs) = AreAbove x.0 xs × IsAscending xs

insert-AreAbove :
    (a : ℤ) (x : Rewarded) (xs : List Rewarded)
    → a ≤ℤ x.0
    → AreAbove a xs
    → AreAbove a (insert_rewarded x xs)
unfolding insert_rewarded
insert-AreAbove a x [] l h = (l, tt)
insert-AreAbove a x (y ∷ ys) l h = elim (Bool-cases (ltb_ℤ y.0 x.0)) [
  | inl less ↦ rw less (h.0, insert-AreAbove a x ys l h.1)
  | inr more ↦ rw more (l, h)
]

insert-IsAscending :
    (x : Rewarded) (xs : List Rewarded) → IsAscending xs → IsAscending (insert_rewarded x xs)
unfolding insert_rewarded
insert-IsAscending x [] h = (tt, tt)
insert-IsAscending x (y ∷ ys) h = elim (Bool-cases (ltb_ℤ y.0 x.0)) [
  | inl less ↦
      rw less (insert-AreAbove y.0 x ys (ground (arith, less)) h.0, insert-IsAscending x ys h.1)
  | inr more ↦
      let first : x.0 ≤ℤ y.0 = ground (arith, more) in
      rw more ((first, All-map (λ (z : Rewarded) (l : y.0 ≤ℤ z.0). omega (arith, first)) ys h.0), h)
]

sort-IsAscending : (xs : List Rewarded) → IsAscending (sort_rewarded xs)
unfolding sort_rewarded
sort-IsAscending [] = tt
sort-IsAscending (x ∷ xs) = insert-IsAscending x (sort_rewarded xs) (sort-IsAscending xs)

last-above : (a d : ℤ) (xs : List Rewarded) → a ≤ℤ d → AreAbove a xs → a ≤ℤ last_reward d xs
unfolding last_reward
last-above a d [] l h = l
last-above a d (x ∷ xs) l h = last-above a x.0 xs h.0 h.1

abbrev AreBelow : ℤ → List Rewarded → Type 0
AreBelow a xs = All (λ (y : Rewarded). y.0 ≤ℤ a) xs

last-AreBelow : (d : ℤ) (xs : List Rewarded) → IsAscending xs → AreBelow (last_reward d xs) xs
unfolding last_reward
last-AreBelow d [] h = tt
last-AreBelow d (x ∷ xs) h = (last-above x.0 x.0 xs (omega arith) h.0, last-AreBelow x.0 xs h.1)

reward_at-above :
    (a : ℤ) (target : ℕ) (final : ℤ) (used : ℕ) (xs : List Rewarded)
    → a ≤ℤ final
    → AreAbove a xs
    → a ≤ℤ reward_at target final used xs
unfolding reward_at
reward_at-above a target final used [] l h = l
reward_at-above a target final used (x ∷ xs) l h = elim (Bool-cases (leb target (used + x.1))) [
  | inl reached ↦ rw reached h.0
  | inr further ↦ rw further (reward_at-above a target final (used + x.1) xs l h.1)
]

reward_at-monotone :
    (t t' : ℕ) (final : ℤ) (used : ℕ) (xs : List Rewarded)
    → t ≤ t'
    → IsAscending xs
    → AreBelow final xs
    → reward_at t final used xs ≤ℤ reward_at t' final used xs
unfolding reward_at
reward_at-monotone t t' final used [] l asc below = omega arith
reward_at-monotone t t' final used (x ∷ xs) l asc below = elim (Bool-cases (leb t' (used + x.1))) [
  | inl reached ↦
      let before : leb t (used + x.1) ≡ true = ground (arith, reached) in
      rw (reached, before) (omega arith)
  | inr further ↦ elim (Bool-cases (leb t (used + x.1))) [
    | inl before ↦ rw (further, before) (reward_at-above x.0 t' final (used + x.1) xs below.0 asc.0)
    | inr not_yet ↦
        rw (further, not_yet) (reward_at-monotone t t' final (used + x.1) xs l asc.1 below.1)
  ]
]

-- In every block, a higher percentile of the gas never has a lower reward.
pub reward_for-monotone : (b : RewardedBlock) (p q : ℕ) → p ≤ q → reward_for b p ≤ℤ reward_for b q
unfolding reward_for rewarded
reward_for-monotone b p q l =
    let sorted = rewarded b in
    let asc : IsAscending sorted = sort-IsAscending (paid b) in
    reward_at-monotone (b.gas_limit * p / 10_000_000) (b.gas_limit * q / 10_000_000)
      (last_reward (pos 0) sorted) 0 sorted (omega (arith, mul-le-mul_left b.gas_limit l)) asc
      (last-AreBelow (pos 0) sorted asc)

-- The reward of a transaction is the effective miner fee that the queue orders it by.
pub effective_gas_reward-miner_fee :
    (base_fee : ℕ) (o : OrderedTransaction)
    → effective_gas_reward base_fee o.tx ≡ get_effective_miner_fee o (some base_fee)
unfolding effective_gas_reward get_effective_miner_fee min
effective_gas_reward-miner_fee base_fee o = ground arith
