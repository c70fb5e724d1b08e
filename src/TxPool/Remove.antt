-- ===== src/TxPool/Remove.antt =====
-- `removeTransaction` of TxPool.ts, and `_removeTx`, which takes one transaction out of a map.
use hardhat.Prelude.{
  ℕ, ◌+◌, Bool, true, false, [], ◌∷◌, ◌++◌, Option, none, some, take, drop, remove_at,
  find_entry_from, ok, throws, ◌>>=◌,
}
use hardhat.Prelude.Assoc.{get, put}
use hardhat.Transactions.{
  TxLibrary, OrderedTransaction, SerializedTransaction, same_serialized, serialize_transaction,
  deserialize_transaction,
}
use hardhat.TxPool.State.{
  SenderTransactions, AddressToTransactions, TxPool, Result, missing_list, transaction_lost,
  pending_for, queued_for, set_pending_for, set_queued_for, delete_by_hash, get_sender_address,
}

-- `list.indexOf(stx)`, with the element that was found
abbrev pub index_of :
    SerializedTransaction → SenderTransactions → Option (ℕ × SerializedTransaction)
index_of stx = find_entry_from 0 (λ s. same_serialized s stx)

unfoldable pub drop_last : SenderTransactions → SenderTransactions
drop_last [] = []
drop_last (t ∷ []) = []
drop_last (t ∷ u ∷ ts) = t ∷ drop_last (u ∷ ts)

-- `list.remove(list.indexOf(stx))`: immutable's `remove` reads the index -1 as the last one.
unfoldable pub remove_serialized : SerializedTransaction → SenderTransactions → SenderTransactions
unfolding drop_last
remove_serialized stx txs = elim (index_of stx txs) [
  | none ↦ drop_last txs
  | some (i, found) ↦ remove_at i txs
]

module _ (lib : TxLibrary) where
  unfoldable pub remove_tx :
      AddressToTransactions → ℕ → OrderedTransaction → TxPool → Result AddressToTransactions
  remove_tx m address o p = elim (get address m) [
    | none ↦ throws missing_list p
    | some txs ↦
        ok (put address (remove_serialized (serialize_transaction lib o) txs) m)
          (delete_by_hash (lib.hash o.tx) p)
  ]

  -- the part of `removeTransaction` behind the look-ups by hash and of the sender
  unfoldable pub remove_from_lists : ℕ → SerializedTransaction → TxPool → Result Bool
  remove_from_lists sender stx p =
      let pending = pending_for p sender in
      let queued = queued_for p sender in
      elim (index_of stx pending) [
        | some (i, found) ↦ ok true (
            set_queued_for sender (queued ++ drop (i + 1) pending)
              (set_pending_for sender (take i pending) p))
        | none ↦ elim (index_of stx queued) [
          | some (i, found) ↦ ok true (set_queued_for sender (remove_at i queued) p)
          | none ↦ throws transaction_lost p
        ]
      ]

  unfoldable pub remove_transaction : ℕ → TxPool → Result Bool
  unfolding get_sender_address remove_from_lists
  remove_transaction tx_hash p = elim (get tx_hash p.state.by_hash) [
    | none ↦ ok false p
    | some entry ↦
        let o = deserialize_transaction lib entry in
        (get_sender_address lib o.tx >>= λ sender.
        remove_from_lists sender (serialize_transaction lib o))
          (delete_by_hash tx_hash p)
  ]
