-- ===== src/Node/Assembly.antt =====
-- `_mineBlockWithPendingTxs` and `_isTxMinable` of node.ts: a block is filled from the queue. The
-- block builder of the package ethereumjs-vm is a parameter.
pub mod Progress
mod Offered
pub mod Nonces
pub mod Mined
pub mod Limits
use hardhat.Prelude.{
  ℕ, zero, suc, ◌+◌, ◌≤◌, ◌≡◌, Bool, true, false, ◌&&◌, ◌||◌, not, ltb, leb, List, [], ◌∷◌, ◌++◌,
  Option, none, some, Outcome, ok, throws, if◌then◌else◌, length, ◌>>=◌, ◌>>◌,
}
use hardhat.Prelude.Int.{ℤ}
use hardhat.Transactions.{TypedTransaction, TxLibrary, OrderedTransaction, max_fee_per_gas}
use hardhat.TransactionQueue.Comparators.{MempoolOrder, comparator}
use hardhat.TransactionQueue.Order.{waiting}
use hardhat.TransactionQueue.Queue.{
  HeapLibrary, TransactionQueue, QueueError, PendingTransactions, init, get_next_transaction,
  remove_last_sender_transactions,
}
use hardhat.TxPool.State.{Account, TxPool, PoolError, read_transactions}
use hardhat.TxPool.Update.{update_pending_and_queued}

-- What `vm.buildBlock` returns: `add_transaction` answers none where it throws, and
-- `accounts_after` are the state manager's accounts once the builder's transactions have run.
pub record BuilderLibrary : Type 1 where
  pub Builder : Type 0
  pub Result : Type 0
  pub Built : Type 0
  pub gas_used : Builder → ℕ
  pub transactions : Builder → List TypedTransaction
  pub add_transaction : TypedTransaction → Builder → Option (Result × Builder)
  pub build : Builder → Option Built
  pub accounts_after : Builder → ℕ → Account

-- What ethereumjs documents of `addTransaction`: it puts the transaction at the end of the block,
-- and the gas used grows by what the transaction used, which is at most its limit.
pub record BuilderLaws (b : BuilderLibrary) : Type 0 where
  pub gas_used_add :
      (tx : TypedTransaction) (x : b.Builder) (r : b.Result) (y : b.Builder)
      → b.add_transaction tx x ≡ some (r, y)
      → b.gas_used y ≤ b.gas_used x + tx.gas_limit
  pub transactions_add :
      (tx : TypedTransaction) (x : b.Builder) (r : b.Result) (y : b.Builder)
      → b.add_transaction tx x ≡ some (r, y)
      → b.transactions y ≡ b.transactions x ++ tx ∷ []

-- what the methods read of the node
pub record MiningConfig : Type 0 where
  pub min_gas_price : ℕ
  pub block_gas_limit : ℕ
  pub minimal_transaction_fee : ℕ
  pub mempool_order : MempoolOrder
  -- `getNextBlockBaseFeePerGas()`
  pub base_fee : Option ℕ

pub data MineError : Type 0 where
  queue_error : QueueError → MineError
  pool_error : PoolError → MineError
  -- the InternalError of the queue's constructor
  no_base_fee : MineError
  -- what the builder throws
  vm_error : MineError

abbrev pub can_pay_base_fee : ℕ → Option ℕ → Bool
can_pay_base_fee max_fee none = true
can_pay_base_fee max_fee (some base_fee) = leb base_fee max_fee

unfoldable pub is_tx_minable : MiningConfig → TypedTransaction → Bool
is_tx_minable config tx =
    let max_fee = max_fee_per_gas tx.fees in
    can_pay_base_fee max_fee config.base_fee && leb config.min_gas_price max_fee

-- The variables of the loop. `results` stands for the three lists that grow together.
pub record Assembly (h : HeapLibrary) (b : BuilderLibrary) : Type 0 where
  pub queue : TransactionQueue h
  pub builder : b.Builder
  pub results : List b.Result

module _ (lib : TxLibrary) (h : HeapLibrary) (b : BuilderLibrary) (config : MiningConfig) where
  abbrev pub Assembled : Type 0
  Assembled = Outcome MineError (Assembly h b) (Unit {0})

  unfoldable pub next_tx : Assembly h b → Outcome MineError (Assembly h b) (Option TypedTransaction)
  next_tx s = elim (get_next_transaction h lib s.queue) [
    | ok tx q ↦ ok tx (record s { queue = q })
    | throws e q ↦ throws (queue_error e) (record s { queue = q })
  ]

  -- the loop's condition is `blockGasLimit - gasUsed >= minTxFee`, on integers
  unfoldable pub has_room : Assembly h b → Bool
  has_room s = leb (b.gas_used s.builder + config.minimal_transaction_fee) config.block_gas_limit

  unfoldable pub is_skipped : TypedTransaction → Assembly h b → Bool
  unfolding is_tx_minable
  is_skipped tx s =
      not (is_tx_minable config tx)
      || ltb config.block_gas_limit (b.gas_used s.builder + tx.gas_limit)

  -- the loop's body up to the last line
  unfoldable pub take_tx : TypedTransaction → Assembly h b → Assembled
  unfolding is_skipped
  take_tx tx s =
      if is_skipped tx s
      then elim (remove_last_sender_transactions h s.queue) [
        | ok u q ↦ ok tt (record s { queue = q })
        | throws e q ↦ throws (queue_error e) (record s { queue = q })
      ]
      else elim (b.add_transaction tx s.builder) [
        | none ↦ throws vm_error s
        | some (r, y) ↦ ok tt (record s { builder = y; results = s.results ++ r ∷ [] })
      ]

  -- The loop, with the transaction at hand; none if the fuel is used up.
  unfoldable pub assemble : ℕ → Option TypedTransaction → Assembly h b → Option Assembled
  unfolding next_tx has_room take_tx
  assemble zero tx s = none
  assemble (suc fuel) none s = some (ok tt s)
  assemble (suc fuel) (some tx) s = elim (has_room s) [
    | true ↦ elim ((do take_tx tx; next_tx) s) [
      | ok next s' ↦ assemble fuel next s'
      | throws e s' ↦ some (throws e s')
    ]
    | false ↦ some (ok tt s)
  ]

  -- from the first `getNextTransaction` to the end of the loop
  unfoldable pub fill_block : Assembly h b → Option Assembled
  unfolding assemble next_tx
  fill_block s = elim (next_tx s) [
    | ok tx s' ↦ assemble (suc (length (waiting h s.queue))) tx s'
    | throws e s' ↦ some (throws e s')
  ]

abbrev pub first_and_rest : List (ℕ × List OrderedTransaction) → PendingTransactions
first_and_rest [] = []
first_and_rest ((a, []) ∷ l) = first_and_rest l
first_and_rest ((a, f ∷ r) ∷ l) = (a, (f, r)) ∷ first_and_rest l

-- `getBlockGasLimit()` is the limit of the pool
abbrev pub limited : MiningConfig → TxPool → MiningConfig
limited config p = record config { block_gas_limit = p.state.block_gas_limit }

-- The method, for the builder of an empty block with the next block's header. It answers the block
-- and the results, and `catch` passes on what was thrown once the builder is reverted.
unfoldable pub mine_block_with_pending_txs :
    (lib : TxLibrary) (heaps : (OrderedTransaction → OrderedTransaction → ℤ) → HeapLibrary)
    (b : BuilderLibrary) (config : MiningConfig)
    → b.Builder
    → TxPool
    → Option (Outcome MineError TxPool (b.Built × List b.Result))
unfolding fill_block init
mine_block_with_pending_txs lib heaps b config builder p =
    let pending = first_and_rest (read_transactions lib p.state.pending) in
    elim (init heaps config.mempool_order config.base_fee pending) [
      | none ↦ some (throws no_base_fee p)
      | some q ↦
          let filled =
            fill_block lib (heaps (comparator config.mempool_order config.base_fee)) b
              (limited config p) (record { queue = q; builder = builder; results = [] }) in
          elim filled [
            | none ↦ none
            | some (throws e s) ↦ some (throws e p)
            | some (ok u s) ↦ elim (b.build s.builder) [
              | none ↦ some (throws vm_error p)
              | some block ↦ elim (update_pending_and_queued lib (b.accounts_after s.builder) p) [
                | ok v p' ↦ some (ok (block, s.results) p')
                | throws e p' ↦ some (throws (pool_error e) p')
              ]
            ]
          ]
    ]
