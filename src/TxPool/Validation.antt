-- ===== src/TxPool/Validation.antt =====
-- When `addTransaction` lets a transaction in, and what a replacement must pay.
use hardhat.Prelude.{
  ℕ, ◌+◌, ◌*◌, ◌≤◌, ◌≡◌, refl, ◌↔◌, ◌⊎◌, inl, inr, ltb, if◌then◌else◌, some, arith, Bool, true,
  false, ok, throws, Option-cases,
}
use hardhat.Transactions.{TypedTransaction, TxLibrary, max_fee_per_gas, sender_of}
use hardhat.TxPool.Add.{
  get_min_new_fee_price, creates_without_data, is_known_transaction, validate_transaction,
  add_transaction, add_pending_transaction, add_queued_transaction,
}
use hardhat.TxPool.State.{
  Account, TxPool, PoolError, Result, known_transaction, creation_without_data, not_enough_funds,
  nonce_too_low, gas_below_base_fee, gas_above_block_limit, invalid_signature, unrecoverable_sender,
  get_next_pending_nonce,
}

-- The price that a replacement must reach is the least one that is at least 110% of the old.
pub get_min_new_fee_price-least :
    (fee m : ℕ) → (get_min_new_fee_price fee ≤ m) ↔ (110 * fee ≤ 100 * m)
unfolding get_min_new_fee_price
get_min_new_fee_price-least fee m = ground arith

-- A transaction is acceptable to a pool when it is not in it yet, creates no contract without
-- code, can be paid for, has no nonce that is used up, and its gas covers the intrinsic cost and
-- fits a block.
pub record IsAcceptable (lib : TxLibrary) (accounts : ℕ → Account) (tx : TypedTransaction)
    (sender : ℕ) (p : TxPool) : Type 0 where
  pub is_new : is_known_transaction lib tx sender p ≡ false
  pub has_code : creates_without_data tx ≡ false
  pub is_funded : tx.gas_limit * max_fee_per_gas tx.fees + tx.value ≤ (accounts sender).balance
  pub nonce_unused : (accounts sender).nonce ≤ tx.nonce
  pub covers_base_fee : lib.base_fee tx ≤ tx.gas_limit
  pub fits_block : tx.gas_limit ≤ p.state.block_gas_limit

-- a check that throws leaves the pool as it is, and a check that passes hands over to the next
guard-cases :
    {p : TxPool} {r : Result (Unit {0})} (failed : Bool) (e : PoolError)
    → ((e : PoolError) × (r ≡ throws e p)) ⊎ (r ≡ ok tt p)
    → ((e' : PoolError) × ((if failed then throws e p else r) ≡ throws e' p))
      ⊎ ((if failed then throws e p else r) ≡ ok tt p)
guard-cases true e h = inl (e, refl)
guard-cases false e h = h

module _ (lib : TxLibrary) (accounts : ℕ → Account) (tx : TypedTransaction) where
  -- The validation passes exactly the acceptable transactions.
  pub validate-IsAcceptable :
      (sender : ℕ) (p : TxPool)
      → (validate_transaction lib accounts tx sender (accounts sender).nonce p ≡ ok tt p)
        ↔ IsAcceptable lib accounts tx sender p
  unfolding validate_transaction
  validate-IsAcceptable sender p = (λ h. ground arith, λ a. ground arith)

  -- It changes nothing, whether it passes or throws.
  pub validate-cases :
      (sender : ℕ) (p : TxPool)
      → ((e : PoolError) × (validate_transaction lib accounts tx sender (accounts sender).nonce p
            ≡ throws e p))
        ⊎ ((validate_transaction lib accounts tx sender (accounts sender).nonce p ≡ ok tt p)
            × IsAcceptable lib accounts tx sender p)
  unfolding validate_transaction
  validate-cases sender p =
      let outcome = validate_transaction lib accounts tx sender (accounts sender).nonce p in
      let checked : ((e : PoolError) × (outcome ≡ throws e p)) ⊎ (outcome ≡ ok tt p) =
        guard-cases _ known_transaction (
          guard-cases _ creation_without_data (
            guard-cases _ not_enough_funds (
              guard-cases _ nonce_too_low (
                guard-cases _ gas_below_base_fee
                  (guard-cases _ gas_above_block_limit (inr refl)))))) in
      elim checked [
        | inl thrown ↦ inl thrown
        | inr passed ↦ inr (passed, (validate-IsAcceptable sender p).0 passed)
      ]

  -- An offered transaction is refused with the pool untouched, or it is acceptable and goes to
  -- the queue or to the pending list by its nonce.
  pub add_transaction-cases :
      (p : TxPool)
      → ((e : PoolError) × (add_transaction lib accounts tx p ≡ throws e p))
        ⊎ ((sender : ℕ) × (sender_of lib tx ≡ some sender)
            × IsAcceptable lib accounts tx sender p
            × (add_transaction lib accounts tx p ≡ (
                if ltb (get_next_pending_nonce lib accounts sender p) tx.nonce
                then add_queued_transaction lib sender tx p
                else add_pending_transaction lib sender tx p)))
  unfolding add_transaction
  add_transaction-cases p = elim (Option-cases (sender_of lib tx)) [
    | inl e ↦ elim (Option-cases tx.signature) [
      | inl unsigned ↦ inl (invalid_signature, ground (arith, e, unsigned))
      | inr (s, signed) ↦ inl (unrecoverable_sender, ground (arith, e, signed))
    ]
    | inr (sender, e) ↦ elim (validate-cases sender p) [
      | inl (err, thrown) ↦ inl (err, ground (arith, e, thrown))
      | inr (passed, good) ↦ inr (sender, e, good, ground (arith, e, passed))
    ]
  ]
