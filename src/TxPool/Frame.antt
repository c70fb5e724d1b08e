-- ===== src/TxPool/Frame.antt =====
-- Which methods leave the snapshots of the pool alone: all but `snapshot` and `revert`.
use hardhat.Prelude.{
  Outcome-cases, ℕ, ◌≡◌, refl, ◌∙◌, ltb, leb, [], ◌∷◌, arith, Bool, true, false, Bool-cases, after,
  inl, inr, ◌>>=◌, ◌>>◌,
}
use hardhat.Transactions.{
  TypedTransaction, TxLibrary, SerializedTransaction, deserialize_transaction,
}
use hardhat.TxPool.Add.{add_transaction, add_pending_transaction, add_queued_transaction}
use hardhat.TxPool.Cases.{add_pending-cases, add_queued-cases}
use hardhat.TxPool.Remove.{remove_tx, remove_transaction}
use hardhat.TxPool.State.{
  Account, SenderTransactions, AddressToTransactions, TxPool, Result, get_next_pending_nonce,
}
use hardhat.TxPool.Update.{
  is_tx_valid, push_queued, set_pending, set_queued, sweep_pending, sweep_all_pending, sweep_queued,
  sweep_all_queued, update_pending_and_queued,
}
use hardhat.TxPool.Validation.{add_transaction-cases}

-- the method leaves the snapshots alone
abbrev pub Keeps : {A : Type 0} → (TxPool → Result A) → Type 0
Keeps m =
    (p : TxPool)
    → ((after (m p)).snapshots ≡ p.snapshots)
      × ((after (m p)).next_snapshot_id ≡ p.next_snapshot_id)

Keeps-bind :
    {A B : Type 0} (m : TxPool → Result A) (f : A → TxPool → Result B)
    → Keeps m
    → ((a : A) → Keeps (f a))
    → Keeps (m >>= f)
Keeps-bind m f k l p = elim (Outcome-cases (m p)) [
  | inl (a, q, e) ↦ let h = rw e at (k p) in rw (e, ◌>>=◌) ((l a q).0 ∙ h.0, (l a q).1 ∙ h.1)
  | inr (err, q, e) ↦ rw (e, ◌>>=◌) (rw e at (k p))
]

module _ (lib : TxLibrary) where
  Keeps-add_pending : (s : ℕ) (tx : TypedTransaction) → Keeps (add_pending_transaction lib s tx)
  Keeps-add_pending s tx p = elim (add_pending-cases lib s tx p) [
    | inl (e, t) ↦ rw t (refl, refl)
    | inr (inl (i, x, r, t)) ↦ rw t (refl, refl)
    | inr (inr (np, nq, a, e, t)) ↦ rw t (refl, refl)
  ]

  Keeps-add_queued : (s : ℕ) (tx : TypedTransaction) → Keeps (add_queued_transaction lib s tx)
  Keeps-add_queued s tx p = elim (add_queued-cases lib s tx p) [
    | inl (e, t) ↦ rw t (refl, refl)
    | inr (inl (i, x, r, t)) ↦ rw t (refl, refl)
    | inr (inr (a, t)) ↦ rw t (refl, refl)
  ]

  pub Keeps-add :
      (accounts : ℕ → Account) (tx : TypedTransaction) → Keeps (add_transaction lib accounts tx)
  Keeps-add accounts tx p = elim (add_transaction-cases lib accounts tx p) [
    | inl (e, t) ↦ rw t (refl, refl)
    | inr (s, sent, good, t) ↦
        elim (Bool-cases (ltb (get_next_pending_nonce lib accounts s p) tx.nonce)) [
          | inl far ↦ rw (t, far) (Keeps-add_queued s tx p)
          | inr near ↦ rw (t, near) (Keeps-add_pending s tx p)
        ]
  ]

  pub Keeps-remove : (h : ℕ) → Keeps (remove_transaction lib h)
  unfolding remove_transaction
  Keeps-remove h p = ground arith

  Keeps-remove_tx :
      (m : AddressToTransactions) (a : ℕ) (t : SerializedTransaction)
      → Keeps (remove_tx lib m a (deserialize_transaction lib t))
  unfolding remove_tx
  Keeps-remove_tx m a t p = ground arith

  Keeps-sweep_pending :
      (a : ℕ) (account : Account) (ts : SenderTransactions) (moving : Bool)
      (m : AddressToTransactions)
      → Keeps (sweep_pending lib a account ts moving m)
  unfolding sweep_pending
  Keeps-sweep_pending a account [] moving m p = (refl, refl)
  Keeps-sweep_pending a account (t ∷ ts) true m p =
      Keeps-bind (remove_tx lib m a (deserialize_transaction lib t)) _ (Keeps-remove_tx m a t)
        (λ m'.
          Keeps-bind (push_queued a t) (λ _. sweep_pending lib a account ts true m')
            (λ q. (refl, refl)) (λ _. Keeps-sweep_pending a account ts true m'))
        p
  Keeps-sweep_pending a account (t ∷ ts) false m p =
      let o = deserialize_transaction lib t in
      elim (Bool-cases (is_tx_valid lib p.state.block_gas_limit o.tx account)) [
        | inl valid ↦ rw (valid, sweep_pending) (Keeps-sweep_pending a account ts false m p)
        | inr invalid ↦
            rw (invalid, sweep_pending)
              (Keeps-bind (remove_tx lib m a o) _ (Keeps-remove_tx m a t)
                (λ m'. Keeps-sweep_pending a account ts (leb account.nonce o.tx.nonce) m') p)
      ]

  Keeps-sweep_all_pending :
      (accounts : ℕ → Account) (entries m : AddressToTransactions)
      → Keeps (sweep_all_pending lib accounts entries m)
  unfolding sweep_all_pending
  Keeps-sweep_all_pending accounts [] m p = (refl, refl)
  Keeps-sweep_all_pending accounts ((a, txs) ∷ entries) m p =
      Keeps-bind (sweep_pending lib a (accounts a) txs false m) _
        (Keeps-sweep_pending a (accounts a) txs false m)
        (λ m'. Keeps-sweep_all_pending accounts entries m') p

  Keeps-sweep_queued :
      (a : ℕ) (account : Account) (ts : SenderTransactions) (m : AddressToTransactions)
      → Keeps (sweep_queued lib a account ts m)
  unfolding sweep_queued
  Keeps-sweep_queued a account [] m p = (refl, refl)
  Keeps-sweep_queued a account (t ∷ ts) m p =
      let o = deserialize_transaction lib t in
      elim (Bool-cases (is_tx_valid lib p.state.block_gas_limit o.tx account)) [
        | inl valid ↦ rw (valid, sweep_queued) (Keeps-sweep_queued a account ts m p)
        | inr invalid ↦
            rw (invalid, sweep_queued)
              (Keeps-bind (remove_tx lib m a o) _ (Keeps-remove_tx m a t)
                (λ m'. Keeps-sweep_queued a account ts m') p)
      ]

  Keeps-sweep_all_queued :
      (accounts : ℕ → Account) (entries m : AddressToTransactions)
      → Keeps (sweep_all_queued lib accounts entries m)
  unfolding sweep_all_queued
  Keeps-sweep_all_queued accounts [] m p = (refl, refl)
  Keeps-sweep_all_queued accounts ((a, txs) ∷ entries) m p =
      Keeps-bind (sweep_queued lib a (accounts a) txs m) _ (Keeps-sweep_queued a (accounts a) txs m)
        (λ m'. Keeps-sweep_all_queued accounts entries m') p

  pub Keeps-update : (accounts : ℕ → Account) → Keeps (update_pending_and_queued lib accounts)
  unfolding update_pending_and_queued
  Keeps-update accounts p =
      Keeps-bind (λ q. sweep_all_pending lib accounts q.state.pending q.state.pending q)
        (λ m. set_pending m >> sweep_queue)
        (λ q. Keeps-sweep_all_pending accounts q.state.pending q.state.pending q)
        (λ m.
          Keeps-bind (set_pending m) (λ _. sweep_queue) (λ q. (refl, refl))
            (λ _.
              Keeps-bind (λ q. sweep_all_queued lib accounts q.state.queued q.state.queued q)
                set_queued (λ q. Keeps-sweep_all_queued accounts q.state.queued q.state.queued q)
                (λ m' q. (refl, refl))))
        p
    where
      sweep_queue : TxPool → Result (Unit {0})
      sweep_queue = do
        m ← λ q. sweep_all_queued lib accounts q.state.queued q.state.queued q
        set_queued m
