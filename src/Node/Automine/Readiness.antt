-- ===== src/Node/Automine/Readiness.antt =====
-- What `_validateAutominedTx` lets through is executable at once.
use hardhat.Prelude.{
  ℕ, ◌≤◌, ◌≡◌, subst, true, Option, none, some, ◌↔◌, ◌⊎◌, inl, inr, ok, throws, arith, Option-cases,
}
use hardhat.Node.Assembly.{MiningConfig, is_tx_minable}
use hardhat.Node.Automine.{
  BaseFeeSource, get_next_block_base_fee_per_gas, check_automined_tx, validate_automined_tx,
}
use hardhat.Transactions.{
  TypedTransaction, TxLibrary, max_fee_per_gas, max_priority_fee_per_gas, sender_of,
}
use hardhat.TxPool.Add.{add_transaction}
use hardhat.TxPool.Filed.{HoldsPending, add_transaction-IsFiled}
use hardhat.TxPool.State.{Account, TxPool, PoolError, get_next_pending_nonce}

-- at least the base fee, where there is one
abbrev pub PaysBaseFee : Option ℕ → ℕ → Type 0
PaysBaseFee none max_fee = Unit
PaysBaseFee (some base_fee) max_fee = base_fee ≤ max_fee

check_automined_iff :
    (min_gas_price : ℕ) (base_fee : Option ℕ) (next : ℕ) (tx : TypedTransaction)
    → (check_automined_tx min_gas_price base_fee next tx ≡ none) ↔ (
        (tx.nonce ≡ next)
        × (min_gas_price ≤ max_priority_fee_per_gas tx.fees)
        × PaysBaseFee base_fee (max_fee_per_gas tx.fees))
unfolding check_automined_tx
check_automined_iff min_gas_price none next tx = ground arith
check_automined_iff min_gas_price (some base_fee) next tx = ground arith

module _ (lib : TxLibrary) (accounts : ℕ → Account) (min_gas_price : ℕ) (source : BaseFeeSource)
    (tx : TypedTransaction) (p : TxPool) where
  -- the sender's next transaction, with enough fees
  pub record IsReady (sender : ℕ) : Type 0 where
    pub sent : sender_of lib tx ≡ some sender
    pub next : tx.nonce ≡ get_next_pending_nonce lib accounts sender p
    pub priority : min_gas_price ≤ max_priority_fee_per_gas tx.fees
    pub base : PaysBaseFee (get_next_block_base_fee_per_gas source) (max_fee_per_gas tx.fees)

  -- The validation passes exactly the transactions of a known sender that have the sender's next
  -- pending nonce, at least the minimal gas price as priority fee, and, where the next block has a
  -- base fee, at least that as maximal fee.
  pub validate_automined-IsReady :
      (validate_automined_tx lib accounts min_gas_price source tx p ≡ none)
      ↔ ((sender : ℕ) × IsReady sender)
  unfolding validate_automined_tx
  validate_automined-IsReady = (
    λ e. elim (Option-cases (sender_of lib tx)) [
      | inl lost ↦ absurd (ground (arith, e, lost))
      | inr (s, sent) ↦
          let passed : check_automined_tx min_gas_price (get_next_block_base_fee_per_gas source)
                (get_next_pending_nonce lib accounts s p) tx
              ≡ none =
            ground (arith, e, sent) in
          let (next, priority, base) =
            (check_automined_iff min_gas_price (get_next_block_base_fee_per_gas source)
                (get_next_pending_nonce lib accounts s p) tx).0
              passed in
          (s, record { sent = sent; next = next; priority = priority; base = base })
    ],
    λ (s, ready).
        rw (ready.sent, validate_automined_tx)
          ((check_automined_iff min_gas_price (get_next_block_base_fee_per_gas source)
              (get_next_pending_nonce lib accounts s p) tx).1
            (ready.next, ready.priority, ready.base)),
  )

  -- A transaction whose priority fee is not above its maximal fee, and that the validation passes,
  -- is minable in the next block. addTransaction either throws and leaves the lists, the look-up by
  -- hash and the gas limit as they are, or the transaction is then in the pending list of its
  -- sender: in the place of the one with its nonce, or behind all others, followed only by
  -- transactions that have left the queue.
  pub validate_automined-minable :
      (config : MiningConfig)
      → config.min_gas_price ≡ min_gas_price
      → config.base_fee ≡ get_next_block_base_fee_per_gas source
      → max_priority_fee_per_gas tx.fees ≤ max_fee_per_gas tx.fees
      → validate_automined_tx lib accounts min_gas_price source tx p ≡ none
      → (is_tx_minable config tx ≡ true)
        × (((e : PoolError) × (q : TxPool) × (add_transaction lib accounts tx p ≡ throws e q)
              × (q.state ≡ p.state))
            ⊎ ((sender : ℕ) × (q : TxPool) × (add_transaction lib accounts tx p ≡ ok tt q)
                × (sender_of lib tx ≡ some sender)
                × HoldsPending lib sender tx p q))
  unfolding is_tx_minable
  validate_automined-minable config same_price same_fee capped e =
      let (s, ready) = validate_automined-IsReady.0 e in
      (
        minable config (get_next_block_base_fee_per_gas source) same_fee ready.base
            (omega (arith, ready.priority, same_price)),
        elim (add_transaction-IsFiled lib accounts tx p) [
          | inl refused ↦ inl refused
          | inr (sender, q, run, filed) ↦
              let same : s ≡ sender = ground (arith, ready.sent, filed.sent) in
              let at_next : tx.nonce ≡ get_next_pending_nonce lib accounts sender p =
                subst (λ z. tx.nonce ≡ get_next_pending_nonce lib accounts z p) same ready.next in
              elim filed.placed [
                | inl (far, queued) ↦ absurd (omega (arith, far, at_next))
                | inr (near, pending) ↦ inr (sender, q, run, filed.sent, pending)
              ]
        ],
      )
    where
      minable :
          (config : MiningConfig) (base_fee : Option ℕ)
          → config.base_fee ≡ base_fee
          → PaysBaseFee base_fee (max_fee_per_gas tx.fees)
          → config.min_gas_price ≤ max_fee_per_gas tx.fees
          → is_tx_minable config tx ≡ true
      minable config none same pays l = ground (arith, same)
      minable config (some fee) same pays l = ground (arith, same)
