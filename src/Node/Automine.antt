-- ===== src/Node/Automine.antt =====
-- `_validateAutominedTx` of node.ts, and `getNextBlockBaseFeePerGas`, which it asks for.
pub mod Readiness
use hardhat.Prelude.{
  ℕ, ◌+◌, Bool, true, false, ltb, Option, none, some, Outcome, ok, throws, if◌then◌else◌,
}
use hardhat.Transactions.{
  TypedTransaction, TxLibrary, max_fee_per_gas, max_priority_fee_per_gas, sender_of,
}
use hardhat.TxPool.State.{Account, TxPool, get_next_pending_nonce}

-- What `getNextBlockBaseFeePerGas` reads of the node. `calculated` is the latest header's
-- `calcNextBaseFee()`, of ethereumjs-block.
pub record BaseFeeSource : Type 0 where
  pub is_eip_1559_active : Bool
  pub user_provided : Option ℕ
  pub calculated : ℕ

unfoldable pub get_next_block_base_fee_per_gas : BaseFeeSource → Option ℕ
get_next_block_base_fee_per_gas s =
    if s.is_eip_1559_active
    then elim (s.user_provided) [ some fee ↦ some fee | none ↦ some s.calculated ]
    else none

-- the InvalidInputErrors, in the order of the checks
pub data AutomineError : Type 0 where
  no_sender nonce_too_high nonce_too_low : AutomineError
  priority_fee_below_minimum max_fee_below_base_fee : AutomineError

-- `nextBlockGasFee !== undefined` and above what the transaction offers
abbrev pub is_below_base_fee : ℕ → Option ℕ → Bool
is_below_base_fee max_fee none = false
is_below_base_fee max_fee (some base_fee) = ltb max_fee base_fee

-- The checks behind the one of the sender, with the next pending nonce.
unfoldable pub check_automined_tx : ℕ → Option ℕ → ℕ → TypedTransaction → Option AutomineError
check_automined_tx min_gas_price base_fee next tx =
    if ltb next tx.nonce
    then some nonce_too_high
    else if ltb tx.nonce next
    then some nonce_too_low
    else if ltb (max_priority_fee_per_gas tx.fees) min_gas_price
    then some priority_fee_below_minimum
    else if is_below_base_fee (max_fee_per_gas tx.fees) base_fee
    then some max_fee_below_base_fee
    else none

-- `_validateAutominedTx`: none if it does not throw
unfoldable pub validate_automined_tx :
    TxLibrary → (ℕ → Account) → ℕ → BaseFeeSource → TypedTransaction → TxPool → Option AutomineError
unfolding check_automined_tx get_next_block_base_fee_per_gas
validate_automined_tx lib accounts min_gas_price source tx p = elim (sender_of lib tx) [
  | none ↦ some no_sender
  | some sender ↦
      check_automined_tx min_gas_price (get_next_block_base_fee_per_gas source)
        (get_next_pending_nonce lib accounts sender p) tx
]
