-- ===== src/TransactionQueue/Comparators.antt =====
-- The two comparators of TransactionQueue.ts, `min` and `cmp` of util/bigint.ts, and what order
-- the comparators are.
use hardhat.Prelude.{
  ℕ, ◌<◌, ◌≡◌, ◌↔◌, ◌⊎◌, Option, some, none, Bool, true, false, if◌then◌else◌, arith,
}
use hardhat.Prelude.Int.{ℤ, pos, negsuc, sub_ℕ, ltb_ℤ, ◌≤ℤ◌, ◌<ℤ◌, eq_of_parts}
use hardhat.Transactions.{OrderedTransaction, max_fee_per_gas, max_priority_fee_per_gas}

pub data MempoolOrder : Type 0 where
  priority fifo : MempoolOrder

unfoldable pub min : ℤ → ℤ → ℤ
min x y = if ltb_ℤ x y then x else y

unfoldable pub cmp : ℤ → ℤ → ℤ
cmp a b = if ltb_ℤ a b then negsuc 0 else if ltb_ℤ b a then pos 1 else pos 0

-- The fee may be negative: a transaction's maximum can be below the base fee.
unfoldable pub get_effective_miner_fee : OrderedTransaction → Option ℕ → ℤ
unfolding min
get_effective_miner_fee o none = pos (max_fee_per_gas o.tx.fees)
get_effective_miner_fee o (some base_fee) =
    min (pos (max_priority_fee_per_gas o.tx.fees)) (sub_ℕ (max_fee_per_gas o.tx.fees) base_fee)

abbrev pub is_zero : ℤ → Bool
is_zero c = if ltb_ℤ c (pos 0) then false else if ltb_ℤ (pos 0) c then false else true

unfoldable pub fee_comparator : Option ℕ → OrderedTransaction → OrderedTransaction → ℤ
unfolding cmp
fee_comparator base_fee left right =
    let c = cmp (get_effective_miner_fee right base_fee) (get_effective_miner_fee left base_fee) in
    if is_zero c then sub_ℕ left.order_id right.order_id else c

unfoldable pub fifo_comparator : OrderedTransaction → OrderedTransaction → ℤ
fifo_comparator left right = sub_ℕ left.order_id right.order_id

unfoldable pub comparator : MempoolOrder → Option ℕ → OrderedTransaction → OrderedTransaction → ℤ
unfolding fee_comparator fifo_comparator
comparator priority base_fee = fee_comparator base_fee
comparator fifo base_fee = fifo_comparator

-- `a` goes before `b`: it pays the miner more, or as much and was added earlier.
abbrev pub GoesBefore : Option ℕ → OrderedTransaction → OrderedTransaction → Type 0
GoesBefore base_fee a b =
    (get_effective_miner_fee b base_fee <ℤ get_effective_miner_fee a base_fee)
    ⊎ ((get_effective_miner_fee a base_fee ≡ get_effective_miner_fee b base_fee)
        × (a.order_id < b.order_id))

-- The comparator is negative exactly for a transaction that goes before the other.
pub fee_comparator-GoesBefore :
    (base_fee : Option ℕ) (a b : OrderedTransaction)
    → (fee_comparator base_fee a b <ℤ pos 0) ↔ GoesBefore base_fee a b
unfolding fee_comparator
fee_comparator-GoesBefore base_fee a b =
    let fee = λ (o : OrderedTransaction). get_effective_miner_fee o base_fee in
    (
      λ h. ground (arith, eq_of_parts (fee a) (fee b)),
      λ h. ground (arith, eq_of_parts (fee a) (fee b)),
    )

-- The miner never gets more than the priority fee, nor more than what the transaction offers
-- above the base fee, and gets one of the two.
pub get_effective_miner_fee-least :
    (o : OrderedTransaction) (base_fee : ℕ)
    → let fee = get_effective_miner_fee o (some base_fee) in
      let tip = pos (max_priority_fee_per_gas o.tx.fees) in
      let above = sub_ℕ (max_fee_per_gas o.tx.fees) base_fee in
      (fee ≤ℤ tip) × (fee ≤ℤ above) × ((fee ≡ tip) ⊎ (fee ≡ above))
unfolding get_effective_miner_fee
get_effective_miner_fee-least o base_fee = ground arith
