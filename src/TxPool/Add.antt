-- ===== src/TxPool/Add.antt =====
-- `addTransaction` of TxPool.ts with the validation and the replacement of a transaction that has
-- the same nonce. The source asks a transaction for its sender again in each helper; the answer
-- is the same each time, and is passed along here.
use hardhat.Prelude.{
  ℕ, ◌+◌, ◌*◌, ◌/◌, ◌%◌, Bool, true, false, ◌||◌, ltb, ◌==◌, if◌then◌else◌, [], ◌∷◌, ◌++◌, Option,
  none, some, any, set, find_entry_from, ok, throws, ◌>>=◌, ◌>>◌,
}
use hardhat.Transactions.{
  TypedTransaction, TxLibrary, OrderedTransaction, SerializedTransaction, max_fee_per_gas,
  max_priority_fee_per_gas, serialize_transaction, deserialize_transaction,
}
use hardhat.TxPool.Reorganize.{reorganize_transactions_lists}
use hardhat.TxPool.State.{
  Account, SenderTransactions, TxPool, Result, known_transaction, creation_without_data,
  not_enough_funds, nonce_too_low, gas_below_base_fee, gas_above_block_limit, max_fee_underpriced,
  priority_fee_underpriced, pending_list_empty, pending_for, queued_for, set_pending_for,
  set_queued_for, set_by_hash, delete_by_hash, nonce_of, hash_of, get_sender_address,
  get_next_pending_nonce,
}

-- The fee that a replacement must reach: 110% of the old one, rounded up.
unfoldable pub get_min_new_fee_price : ℕ → ℕ
get_min_new_fee_price fee_price =
    let bumped = fee_price * 110 in if bumped % 100 == 0 then bumped / 100 else bumped / 100 + 1

-- `tx.to === undefined && tx.data.length === 0`
unfoldable pub creates_without_data : TypedTransaction → Bool
creates_without_data tx = elim (tx.to) [
  | some a ↦ false
  | none ↦ elim (tx.input) [ [] ↦ true | b ∷ bs ↦ false ]
]

-- `orderId: this._nextOrderId++`
abbrev pub take_order_id : TxPool → TxPool
take_order_id p = record p { next_order_id = p.next_order_id + 1 }

module _ (lib : TxLibrary) where
  unfoldable pub transaction_exists : TypedTransaction → SenderTransactions → Bool
  transaction_exists tx = any (λ etx. hash_of lib etx == lib.hash tx)

  unfoldable pub is_known_transaction : TypedTransaction → ℕ → TxPool → Bool
  unfolding transaction_exists
  is_known_transaction tx sender p =
      transaction_exists tx (pending_for p sender) || transaction_exists tx (queued_for p sender)

  unfoldable pub validate_transaction :
      (ℕ → Account) → TypedTransaction → ℕ → ℕ → TxPool → Result (Unit {0})
  unfolding creates_without_data
  validate_transaction accounts tx sender sender_nonce p =
      if is_known_transaction tx sender p
      then throws known_transaction p
      else if creates_without_data tx
      then throws creation_without_data p
      else if ltb (accounts sender).balance (tx.gas_limit * max_fee_per_gas tx.fees + tx.value)
      then throws not_enough_funds p
      else if ltb tx.nonce sender_nonce
      then throws nonce_too_low p
      else if ltb tx.gas_limit (lib.base_fee tx)
      then throws gas_below_base_fee p
      else if ltb p.state.block_gas_limit tx.gas_limit
      then throws gas_above_block_limit p
      else ok tt p

  -- `none` where no transaction of the list has the nonce of the new one.
  unfoldable pub replace_tx :
      SenderTransactions → OrderedTransaction → TxPool → Result (Option SenderTransactions)
  replace_tx txs new p = elim (find_entry_from 0 (λ t. nonce_of lib t == new.tx.nonce) txs) [
    | none ↦ ok none p
    | some (i, existing) ↦
        let old = (deserialize_transaction lib existing).tx in
        if ltb (max_fee_per_gas new.tx.fees) (get_min_new_fee_price (max_fee_per_gas old.fees))
        then throws max_fee_underpriced p
        else if ltb (max_priority_fee_per_gas new.tx.fees)
            (get_min_new_fee_price (max_priority_fee_per_gas old.fees))
        then throws priority_fee_underpriced p
        else ok (some (set txs i (serialize_transaction lib new))) (delete_by_hash (lib.hash old) p)
  ]

  unfoldable pub replace_pending_tx : ℕ → OrderedTransaction → TxPool → Result Bool
  replace_pending_tx sender new p = elim (replace_tx (pending_for p sender) new p) [
    | throws e p' ↦ throws e p'
    | ok none p' ↦ ok false p'
    | ok (some txs) p' ↦ ok true (set_pending_for sender txs p')
  ]

  unfoldable pub replace_queued_tx : ℕ → OrderedTransaction → TxPool → Result Bool
  replace_queued_tx sender new p = elim (replace_tx (queued_for p sender) new p) [
    | throws e p' ↦ throws e p'
    | ok none p' ↦ ok false p'
    | ok (some txs) p' ↦ ok true (set_queued_for sender txs p')
  ]

  -- What `_addPendingTransaction` does where nothing was replaced.
  unfoldable pub append_pending : ℕ → SerializedTransaction → TxPool → Result (Unit {0})
  append_pending sender stx p =
      elim (reorganize_transactions_lists (nonce_of lib) (pending_for p sender ++ stx ∷ [])
        (queued_for p sender)) [
          | none ↦ throws pending_list_empty p
          | some (new_pending, new_queued) ↦
              ok tt (set_queued_for sender new_queued (set_pending_for sender new_pending p))
        ]

  unfoldable pub append_queued : ℕ → SerializedTransaction → TxPool → Result (Unit {0})
  append_queued sender stx p = ok tt (set_queued_for sender (queued_for p sender ++ stx ∷ []) p)

  unfoldable pub index_by_hash :
      TypedTransaction → SerializedTransaction → TxPool → Result (Unit {0})
  index_by_hash tx stx p = ok tt (set_by_hash (lib.hash tx) stx p)

  unfoldable pub add_pending_transaction : ℕ → TypedTransaction → TxPool → Result (Unit {0})
  unfolding replace_pending_tx append_pending index_by_hash
  add_pending_transaction sender tx p =
      let new : OrderedTransaction = record { order_id = p.next_order_id; tx = tx } in
      let stx = serialize_transaction lib new in
      (do
        replaced ← replace_pending_tx sender new
        if replaced then ok tt else append_pending sender stx
        index_by_hash tx stx)
        (take_order_id p)

  unfoldable pub add_queued_transaction : ℕ → TypedTransaction → TxPool → Result (Unit {0})
  unfolding replace_queued_tx append_queued index_by_hash
  add_queued_transaction sender tx p =
      let new : OrderedTransaction = record { order_id = p.next_order_id; tx = tx } in
      let stx = serialize_transaction lib new in
      (do
        replaced ← replace_queued_tx sender new
        if replaced then ok tt else append_queued sender stx
        index_by_hash tx stx)
        (take_order_id p)

  unfoldable pub add_transaction : (ℕ → Account) → TypedTransaction → TxPool → Result (Unit {0})
  unfolding get_sender_address
  add_transaction accounts tx = do
    sender ← get_sender_address lib tx
    next_pending ← λ p. ok (get_next_pending_nonce lib accounts sender p) p
    validate_transaction accounts tx sender (accounts sender).nonce
    if ltb next_pending tx.nonce
        then add_queued_transaction sender tx
        else add_pending_transaction sender tx
