-- ===== src/TxPool/State.antt =====
-- The state of the pool and its accessors: PoolState.ts, and the class TxPool of TxPool.ts with
-- its snapshots and the methods that read. `blockGasLimit`, a hex string, is the number it spells.
use hardhat.Prelude.{
  ℕ, ◌+◌, Bool, true, false, ◌||◌, not, leb, List, [], ◌∷◌, Option, none, some, last?, any, Outcome,
  ok, throws, map, keep,
}
use hardhat.Prelude.Assoc.{get, put, delete}
use hardhat.Transactions.{
  TypedTransaction, TxLibrary, OrderedTransaction, SerializedTransaction, sender_of,
  deserialize_transaction,
}

-- What the state manager says of an account.
pub record Account : Type 0 where
  pub nonce : ℕ
  pub balance : ℕ

abbrev pub SenderTransactions : Type 0
SenderTransactions = List SerializedTransaction

abbrev pub AddressToTransactions : Type 0
AddressToTransactions = List (ℕ × SenderTransactions)

pub record PoolState : Type 0 where
  pub pending : AddressToTransactions
  pub queued : AddressToTransactions
  pub by_hash : List (ℕ × SerializedTransaction)
  pub block_gas_limit : ℕ

pub record TxPool : Type 0 where
  pub state : PoolState
  pub snapshots : List (ℕ × PoolState)
  pub next_snapshot_id : ℕ
  pub next_order_id : ℕ

-- The errors that the methods throw, one for each message.
pub data PoolError : Type 0 where
  invalid_signature unrecoverable_sender known_transaction creation_without_data : PoolError
  not_enough_funds nonce_too_low gas_below_base_fee gas_above_block_limit : PoolError
  max_fee_underpriced priority_fee_underpriced : PoolError
  pending_list_empty missing_list transaction_lost no_such_snapshot : PoolError

abbrev pub Result : Type 0 → Type 0
Result A = Outcome PoolError TxPool A

-- `new TxPool(stateManager, blockGasLimit, common)`
unfoldable pub init : ℕ → TxPool
init block_gas_limit = record {
  state = record { pending = []; queued = []; by_hash = []; block_gas_limit = block_gas_limit };
  snapshots = [];
  next_snapshot_id = 0;
  next_order_id = 0;
}

-- `_getPendingForAddress(a) ?? ImmutableList()`, and so for the queue
abbrev pub or_empty : Option SenderTransactions → SenderTransactions
or_empty none = []
or_empty (some txs) = txs

abbrev pub pending_for : TxPool → ℕ → SenderTransactions
pending_for p address = or_empty (get address p.state.pending)

abbrev pub queued_for : TxPool → ℕ → SenderTransactions
queued_for p address = or_empty (get address p.state.queued)

abbrev pub set_pending_for : ℕ → SenderTransactions → TxPool → TxPool
set_pending_for address txs p = record p {
  state = record (p.state) { pending = put address txs p.state.pending };
}

abbrev pub set_queued_for : ℕ → SenderTransactions → TxPool → TxPool
set_queued_for address txs p = record p {
  state = record (p.state) { queued = put address txs p.state.queued };
}

abbrev pub set_by_hash : ℕ → SerializedTransaction → TxPool → TxPool
set_by_hash h stx p = record p { state = record (p.state) { by_hash = put h stx p.state.by_hash } }

abbrev pub delete_by_hash : ℕ → TxPool → TxPool
delete_by_hash h p = record p { state = record (p.state) { by_hash = delete h p.state.by_hash } }

unfoldable pub set_block_gas_limit : ℕ → TxPool → TxPool
set_block_gas_limit limit p = record p { state = record (p.state) { block_gas_limit = limit } }

unfoldable pub snapshot : TxPool → TxPool × ℕ
snapshot p = (
  record p {
    snapshots = put p.next_snapshot_id p.state p.snapshots;
    next_snapshot_id = p.next_snapshot_id + 1;
  },
  p.next_snapshot_id,
)

-- `_removeSnapshotsAfter`: the ids from `id` on are deleted, `id` itself among them.
unfoldable pub remove_snapshots_after : ℕ → List (ℕ × PoolState) → List (ℕ × PoolState)
remove_snapshots_after id snapshots = keep (λ e. not (leb id e.0)) snapshots

unfoldable pub revert : ℕ → TxPool → Result (Unit {0})
unfolding remove_snapshots_after
revert id p = elim (get id p.snapshots) [
  | none ↦ throws no_such_snapshot p
  | some state ↦
      ok tt (record p { state = state; snapshots = remove_snapshots_after id p.snapshots })
]

-- `map.some((txs) => !txs.isEmpty())`
unfoldable pub has_transactions : AddressToTransactions → Bool
has_transactions = any (λ e. elim (e.1) [ [] ↦ false | t ∷ ts ↦ true ])

unfoldable pub is_empty : TxPool → Bool
unfolding has_transactions
is_empty p = not (has_transactions p.state.pending || has_transactions p.state.queued)

module _ (lib : TxLibrary) where
  abbrev pub nonce_of : SerializedTransaction → ℕ
  nonce_of stx = (deserialize_transaction lib stx).tx.nonce

  abbrev pub hash_of : SerializedTransaction → ℕ
  hash_of stx = lib.hash (deserialize_transaction lib stx).tx

  unfoldable pub get_transaction_by_hash : ℕ → TxPool → Option OrderedTransaction
  get_transaction_by_hash h p = elim (get h p.state.by_hash) [
    | none ↦ none
    | some stx ↦ some (deserialize_transaction lib stx)
  ]

  -- `_getSenderAddress`: what the library throws becomes an InvalidInputError.
  unfoldable pub get_sender_address : TypedTransaction → TxPool → Result ℕ
  get_sender_address tx p = elim (sender_of lib tx) [
    | some sender ↦ ok sender p
    | none ↦ elim (tx.signature) [
      | none ↦ throws invalid_signature p
      | some s ↦ throws unrecoverable_sender p
    ]
  ]

  unfoldable pub get_next_pending_nonce : (ℕ → Account) → ℕ → TxPool → ℕ
  get_next_pending_nonce accounts address p = elim (last? (pending_for p address)) [
    | none ↦ (accounts address).nonce
    | some stx ↦ nonce_of stx + 1
  ]

  -- The lists that `getPendingTransactions` and `getQueuedTransactions` return: addresses whose
  -- list is empty are left out.
  unfoldable pub read_transactions : AddressToTransactions → List (ℕ × List OrderedTransaction)
  read_transactions m =
      map (λ e. (e.0, map (deserialize_transaction lib) e.1))
        (keep (λ e. elim (e.1) [ [] ↦ false | t ∷ ts ↦ true ]) m)
