-- ===== src/TxPool/QueueSweep.antt =====
-- The sweep over one sender's queue in closed form: the valid transactions stay.
use mathlib.Core.List.{append_assoc}
use hardhat.Prelude.{
  ℕ, ◌≡◌, refl, sym, ap, ◌∙◌, subst, ◌==◌, [], ◌∷◌, ◌++◌, some, All, arith, false, Bool-cases, ok,
  inl, inr, keep,
}
use hardhat.Prelude.Assoc.{get, put, get-put_self, get-put_ne}
use hardhat.Transactions.{TxLibrary, deserialize_transaction}
use hardhat.TxPool.Order.{Distinct}
use hardhat.TxPool.State.{
  Account, SenderTransactions, AddressToTransactions, TxPool, delete_by_hash, nonce_of, hash_of,
}
use hardhat.TxPool.Sweep.{IsCanonical, remove_tx-append, Distinct-without}
use hardhat.TxPool.Update.{is_tx_valid, sweep_queued}

module _ (lib : TxLibrary) (account : Account) where
  -- The transactions that stay under a block gas limit.
  unfoldable pub valid_ones : ℕ → SenderTransactions → SenderTransactions
  valid_ones limit = keep (λ t. is_tx_valid lib limit (deserialize_transaction lib t).tx account)

  -- The sender's list becomes `stay`; no other list changes.
  pub record QueueSwept (a : ℕ) (stay : SenderTransactions) (m m' : AddressToTransactions)
      (p p' : TxPool) : Type 0 where
    pub stays : get a m' ≡ some stay
    pub other_lists : (b : ℕ) → (a == b) ≡ false → get b m' ≡ get b m
    pub same_pending : p'.state.pending ≡ p.state.pending
    pub same_limit : p'.state.block_gas_limit ≡ p.state.block_gas_limit

  pub sweep_queued-QueueSwept :
      (a : ℕ) (pre ts : SenderTransactions) (m : AddressToTransactions) (p : TxPool)
      → get a m ≡ some (pre ++ ts)
      → All (IsCanonical lib) ts
      → Distinct (nonce_of lib) (pre ++ ts)
      → (m' : AddressToTransactions) × (p' : TxPool) × (sweep_queued lib a account ts m p
          ≡ ok m' p')
        × QueueSwept a (pre ++ valid_ones p.state.block_gas_limit ts) m m' p p'
  unfolding sweep_queued valid_ones
  sweep_queued-QueueSwept a pre [] m p e c d = (
    m,
    p,
    refl,
    record { stays = e; other_lists = λ b ne. refl; same_pending = refl; same_limit = refl },
  )
  sweep_queued-QueueSwept a pre (t ∷ ts) m p e c d =
      let limit = p.state.block_gas_limit in
      let assoc = append_assoc pre (t ∷ []) ts in
      elim (Bool-cases (is_tx_valid lib limit (deserialize_transaction lib t).tx account)) [
        | inl valid ↦
            let (m', p', run, w) =
              sweep_queued-QueueSwept a (pre ++ t ∷ []) ts m p (e ∙ ap some (sym assoc)) c.1
                (subst (Distinct (nonce_of lib)) (sym assoc) d) in
            (
              m',
              p',
              rw (valid, sweep_queued) run,
              rw valid (
                  subst (λ l. QueueSwept a l m m' p p')
                    (append_assoc pre (t ∷ []) (valid_ones limit ts)) w),
            )
        | inr invalid ↦
            let p₁ = delete_by_hash (hash_of lib t) p in
            let (m', p', run, w) =
              sweep_queued-QueueSwept a pre ts (put a (pre ++ ts) m) p₁
                (get-put_self a (pre ++ ts) m) c.1 (Distinct-without lib pre t ts d) in
            (
              m',
              p',
              ground (arith, invalid, remove_tx-append lib m a pre t ts p e c.0 d, run),
              rw invalid (record {
                stays = w.stays;
                other_lists = λ b ne. w.other_lists b ne ∙ get-put_ne a b (pre ++ ts) m ne;
                same_pending = w.same_pending;
                same_limit = w.same_limit;
              }),
            )
      ]
