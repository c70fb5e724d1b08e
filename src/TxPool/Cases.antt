-- ===== src/TxPool/Cases.antt =====
-- The outcomes of `addTransaction`, one description for each way through the code, which the
-- proofs about the pool share.
use hardhat.Prelude.{
  ℕ, ◌≤◌, ◌≡◌, refl, subst, ◌==◌, ltb, [], ◌∷◌, ◌++◌, some, none, ◌⊎◌, inl, inr, All, set,
  get_elem?, find_entry_from, arith, false, Bool-cases, Option-cases, ok, throws, ==_iff,
}
use hardhat.Transactions.{
  TypedTransaction, TxLibrary, OrderedTransaction, SerializedTransaction, serialize_transaction,
  deserialize_transaction, max_fee_per_gas, max_priority_fee_per_gas,
}
use hardhat.TxPool.Add.{
  get_min_new_fee_price, replace_tx, replace_pending_tx, replace_queued_tx, append_pending,
  append_queued, index_by_hash, add_pending_transaction, add_queued_transaction, take_order_id,
}
use hardhat.Prelude.{find_entry_none, find_entry_some}
use hardhat.TxPool.Reorganize.{reorganize_transactions_lists}
use hardhat.TxPool.State.{
  SenderTransactions, TxPool, PoolError, pending_for, queued_for, set_pending_for, set_queued_for,
  set_by_hash, delete_by_hash, max_fee_underpriced, priority_fee_underpriced, pending_list_empty,
  nonce_of, hash_of,
}

module _ (lib : TxLibrary) where
  -- A replacement pays at least the bumped price of the one it replaces, in both fees.
  abbrev pub Outbids : TypedTransaction → TypedTransaction → Type 0
  Outbids new old =
      (get_min_new_fee_price (max_fee_per_gas old.fees) ≤ max_fee_per_gas new.fees)
      × (get_min_new_fee_price (max_priority_fee_per_gas old.fees)
          ≤ max_priority_fee_per_gas new.fees)

  -- The element of `txs` at `i` has the nonce of `tx` and is outbid by it.
  abbrev pub Replaces : SenderTransactions → ℕ → SerializedTransaction → TypedTransaction → Type 0
  Replaces txs i existing tx =
      (get_elem? txs i ≡ some existing)
      × (nonce_of lib existing ≡ tx.nonce)
      × Outbids tx (deserialize_transaction lib existing).tx

  abbrev pub Absent : SenderTransactions → TypedTransaction → Type 0
  Absent txs tx = All (λ t. (nonce_of lib t == tx.nonce) ≡ false) txs

  replace_tx-found :
      (txs : SenderTransactions) (new : OrderedTransaction) (p : TxPool) (i : ℕ)
      (t : SerializedTransaction)
      → find_entry_from 0 (λ t. nonce_of lib t == new.tx.nonce) txs ≡ some (i, t)
      → get_elem? txs i ≡ some t
      → nonce_of lib t ≡ new.tx.nonce
      → ((replace_tx lib txs new p ≡ ok none p) × Absent txs new.tx)
        ⊎ ((e : PoolError) × (replace_tx lib txs new p ≡ throws e p))
        ⊎ ((i : ℕ) × (existing : SerializedTransaction) × Replaces txs i existing new.tx
            × (replace_tx lib txs new p
                ≡ ok
                    (some (set txs i (serialize_transaction lib new)))
                    (delete_by_hash (hash_of lib existing) p)))
  unfolding replace_tx
  replace_tx-found txs new p i t e here same =
      let old = (deserialize_transaction lib t).tx in
      elim (Bool-cases
        (ltb (max_fee_per_gas new.tx.fees) (get_min_new_fee_price (max_fee_per_gas old.fees)))) [
          | inl a ↦ inr (inl (max_fee_underpriced, rw (e, replace_tx, a) refl))
          | inr a ↦
              elim (Bool-cases (
                ltb (max_priority_fee_per_gas new.tx.fees)
                  (get_min_new_fee_price (max_priority_fee_per_gas old.fees)))) [
                    | inl b ↦ inr (inl (priority_fee_underpriced, rw (e, replace_tx, a, b) refl))
                    | inr b ↦ inr (
                        inr (
                          i,
                          t,
                          (here, same, (ground arith, ground arith)),
                          rw (e, replace_tx, a, b) refl,
                        ))
                  ]
        ]

  pub replace_tx-cases :
      (txs : SenderTransactions) (new : OrderedTransaction) (p : TxPool)
      → ((replace_tx lib txs new p ≡ ok none p) × Absent txs new.tx)
        ⊎ ((e : PoolError) × (replace_tx lib txs new p ≡ throws e p))
        ⊎ ((i : ℕ) × (existing : SerializedTransaction) × Replaces txs i existing new.tx
            × (replace_tx lib txs new p
                ≡ ok
                    (some (set txs i (serialize_transaction lib new)))
                    (delete_by_hash (hash_of lib existing) p)))
  unfolding replace_tx
  replace_tx-cases txs new p =
      elim (Option-cases (find_entry_from 0 (λ t. nonce_of lib t == new.tx.nonce) txs)) [
        | inl e ↦ inl (rw (e, replace_tx) refl, find_entry_none _ 0 txs e)
        | inr ((i, t), e) ↦
            let (j, at, here, same) = find_entry_some _ 0 txs i t e in
            let at' : j ≡ i = omega (arith, at) in
            replace_tx-found txs new p i t e (subst (λ k. get_elem? txs k ≡ some t) at' here)
              ((==_iff _ _).0 same)
      ]

  module _ (sender : ℕ) (tx : TypedTransaction) (p : TxPool) where
    abbrev pub new_serialized : SerializedTransaction
    new_serialized = serialize_transaction lib (record { order_id = p.next_order_id; tx = tx })

    -- the pool after a replacement in the pending list, and in the queue
    abbrev pub replaced_pending : ℕ → SerializedTransaction → TxPool
    replaced_pending i existing = set_by_hash (lib.hash tx) new_serialized (
        set_pending_for sender (set (pending_for p sender) i new_serialized)
          (delete_by_hash (hash_of lib existing) (take_order_id p)))

    abbrev pub replaced_queued : ℕ → SerializedTransaction → TxPool
    replaced_queued i existing = set_by_hash (lib.hash tx) new_serialized (
        set_queued_for sender (set (queued_for p sender) i new_serialized)
          (delete_by_hash (hash_of lib existing) (take_order_id p)))

    -- the pool after the lists of the sender have been set
    abbrev pub appended : SenderTransactions → SenderTransactions → TxPool
    appended pending queued =
        set_by_hash (lib.hash tx) new_serialized
          (set_queued_for sender queued (set_pending_for sender pending (take_order_id p)))

    abbrev pub appended_queued : TxPool
    appended_queued =
        set_by_hash (lib.hash tx) new_serialized
          (set_queued_for sender (queued_for p sender ++ new_serialized ∷ []) (take_order_id p))

    pub add_pending-cases :
        ((e : PoolError) × (add_pending_transaction lib sender tx p ≡ throws e (take_order_id p)))
        ⊎ ((i : ℕ) × (existing : SerializedTransaction) × Replaces
              (pending_for p sender)
              i
              existing
              tx
            × (add_pending_transaction lib sender tx p ≡ ok tt (replaced_pending i existing)))
        ⊎ ((pending queued : SenderTransactions) × Absent (pending_for p sender) tx
            × (reorganize_transactions_lists
                  (nonce_of lib)
                  (pending_for p sender ++ new_serialized ∷ [])
                  (queued_for p sender)
                ≡ some (pending, queued))
            × (add_pending_transaction lib sender tx p ≡ ok tt (appended pending queued)))
    unfolding add_pending_transaction replace_pending_tx append_pending index_by_hash
    add_pending-cases =
        let new : OrderedTransaction = record { order_id = p.next_order_id; tx = tx } in
        elim (replace_tx-cases (pending_for p sender) new (take_order_id p)) [
          | inr (inl (e, t)) ↦ inl (e, ground (arith, t))
          | inr (inr (i, existing, r, t)) ↦ inr (inl (i, existing, r, ground (arith, t)))
          | inl (t, absent) ↦
              elim (Option-cases (
                reorganize_transactions_lists (nonce_of lib)
                  (pending_for p sender ++ new_serialized ∷ []) (queued_for p sender))) [
                    | inl e ↦ inl (pending_list_empty, ground (arith, t, e))
                    | inr ((np, nq), e) ↦ inr (inr (np, nq, absent, e, ground (arith, t, e)))
                  ]
        ]

    pub add_queued-cases :
        ((e : PoolError) × (add_queued_transaction lib sender tx p ≡ throws e (take_order_id p)))
        ⊎ ((i : ℕ) × (existing : SerializedTransaction) × Replaces
              (queued_for p sender)
              i
              existing
              tx
            × (add_queued_transaction lib sender tx p ≡ ok tt (replaced_queued i existing)))
        ⊎ (Absent (queued_for p sender) tx
            × (add_queued_transaction lib sender tx p ≡ ok tt appended_queued))
    unfolding add_queued_transaction replace_queued_tx append_queued index_by_hash
    add_queued-cases =
        let new : OrderedTransaction = record { order_id = p.next_order_id; tx = tx } in
        elim (replace_tx-cases (queued_for p sender) new (take_order_id p)) [
          | inr (inl (e, t)) ↦ inl (e, ground (arith, t))
          | inr (inr (i, existing, r, t)) ↦ inr (inl (i, existing, r, ground (arith, t)))
          | inl (t, absent) ↦ inr (inr (absent, ground (arith, t)))
        ]
