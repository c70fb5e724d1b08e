-- ===== src/TxPool/Update.antt =====
-- `updatePendingAndQueued` of TxPool.ts: the two sweeps that drop what cannot be mined any more.
use hardhat.Prelude.{ℕ, Bool, true, false, ◌&&◌, leb, [], ◌∷◌, ◌++◌, ok, ◌>>=◌, ◌>>◌}
use hardhat.Transactions.{
  TxLibrary, TypedTransaction, SerializedTransaction, deserialize_transaction,
}
use hardhat.TxPool.Remove.{remove_tx}
use hardhat.TxPool.State.{
  Account, SenderTransactions, AddressToTransactions, TxPool, Result, queued_for, set_queued_for,
}

abbrev pub set_pending : AddressToTransactions → TxPool → Result (Unit {0})
set_pending m p = ok tt (record p { state = record (p.state) { pending = m } })

abbrev pub set_queued : AddressToTransactions → TxPool → Result (Unit {0})
set_queued m p = ok tt (record p { state = record (p.state) { queued = m } })

abbrev pub push_queued : ℕ → SerializedTransaction → TxPool → Result (Unit {0})
push_queued address stx p = ok tt (set_queued_for address (queued_for p address ++ stx ∷ []) p)

module _ (lib : TxLibrary) where
  unfoldable pub is_tx_valid : ℕ → TypedTransaction → Account → Bool
  is_tx_valid block_gas_limit tx account =
      leb tx.gas_limit block_gas_limit
      && leb account.nonce tx.nonce
      && leb (lib.upfront_cost tx) account.balance

  -- The loop over one sender's pending list; the map is the local variable `newPending`, and
  -- `moving` is `moveToQueued`.
  unfoldable pub sweep_pending :
      ℕ
      → Account
      → SenderTransactions
      → Bool
      → AddressToTransactions
      → TxPool
      → Result AddressToTransactions
  unfolding is_tx_valid
  sweep_pending address account [] moving m p = ok m p
  sweep_pending address account (t ∷ ts) moving m p =
      let o = deserialize_transaction lib t in
      elim moving [
        | true ↦
            (do
              m' ← remove_tx lib m address o
              push_queued address t
              sweep_pending address account ts true m')
              p
        | false ↦ elim (is_tx_valid p.state.block_gas_limit o.tx account) [
          | true ↦ sweep_pending address account ts false m p
          | false ↦
              (do
                m' ← remove_tx lib m address o
                sweep_pending address account ts (leb account.nonce o.tx.nonce) m')
                p
        ]
      ]

  unfoldable pub sweep_all_pending :
      (ℕ → Account)
      → AddressToTransactions
      → AddressToTransactions
      → TxPool
      → Result AddressToTransactions
  unfolding sweep_pending
  sweep_all_pending accounts [] m p = ok m p
  sweep_all_pending accounts ((address, txs) ∷ entries) m p =
      (do
        m' ← sweep_pending address (accounts address) txs false m
        sweep_all_pending accounts entries m')
        p

  unfoldable pub sweep_queued :
      ℕ
      → Account
      → SenderTransactions
      → AddressToTransactions
      → TxPool
      → Result AddressToTransactions
  unfolding is_tx_valid
  sweep_queued address account [] m p = ok m p
  sweep_queued address account (t ∷ ts) m p =
      let o = deserialize_transaction lib t in
      elim (is_tx_valid p.state.block_gas_limit o.tx account) [
        | true ↦ sweep_queued address account ts m p
        | false ↦ (do m' ← remove_tx lib m address o; sweep_queued address account ts m') p
      ]

  unfoldable pub sweep_all_queued :
      (ℕ → Account)
      → AddressToTransactions
      → AddressToTransactions
      → TxPool
      → Result AddressToTransactions
  unfolding sweep_queued
  sweep_all_queued accounts [] m p = ok m p
  sweep_all_queued accounts ((address, txs) ∷ entries) m p =
      (do m' ← sweep_queued address (accounts address) txs m; sweep_all_queued accounts entries m')
        p

  unfoldable pub update_pending_and_queued : (ℕ → Account) → TxPool → Result (Unit {0})
  unfolding sweep_all_pending sweep_all_queued
  update_pending_and_queued accounts = do
    new_pending ← λ p. sweep_all_pending accounts p.state.pending p.state.pending p
    set_pending new_pending
    new_queued ← λ p. sweep_all_queued accounts p.state.queued p.state.queued p
    set_queued new_queued
