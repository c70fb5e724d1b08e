-- ===== src/Node/Snapshots.antt =====
-- `takeSnapshot`, `revertToSnapshot`, `_getSnapshotIndex` and `_removeSnapshot` of node.ts, over
-- the pool, the chain and the clock.
pub mod Restores
use hardhat.Prelude.{
  ℕ, zero, suc, ◌+◌, Bool, true, false, ltb, ◌==◌, List, [], ◌∷◌, ◌++◌, Option, none, some, Outcome,
  ok, throws, take, get_elem?, if◌then◌else◌,
}
use hardhat.Prelude.Assoc.{get}
use hardhat.Blockchain.Chain
use hardhat.Blockchain.Chain.{HardhatBlockchain, get_latest_block, delete_later_blocks}
use hardhat.Blockchain.Data.{ChainError}
use hardhat.Blockchain.Types.{Block, BlockLibrary}
use hardhat.Node.Clock.{Clock, revert_clock}
use hardhat.TxPool.State
use hardhat.TxPool.State.{TxPool, PoolError}

-- the interface Snapshot of node-types.ts, its two clock fields together
pub record Snapshot : Type 0 where
  pub id : ℕ
  pub date : ℕ
  pub latest_block : Block
  pub state_root : ℕ
  pub tx_pool_snapshot_id : ℕ
  pub clock : Clock
  pub irregular_states : List (ℕ × ℕ)
  pub user_provided_base_fee : Option ℕ
  pub coinbase : ℕ
  pub mix_hash_generator : ℕ

-- What the two methods touch of the node. `state_root` is the state manager's, and
-- `mix_hash_generator` the generator's next value.
pub record NodeState : Type 0 where
  pub snapshots : List Snapshot
  pub next_snapshot_id : ℕ
  pub pool : TxPool
  pub chain : HardhatBlockchain
  pub state_root : ℕ
  pub clock : Clock
  pub irregular_states : List (ℕ × ℕ)
  pub user_provided_base_fee : Option ℕ
  pub coinbase : ℕ
  pub mix_hash_generator : ℕ

pub data NodeError : Type 0 where
  chain_error : ChainError → NodeError
  pool_error : PoolError → NodeError
  no_snapshot_at_index : NodeError

-- the loop of `_getSnapshotIndex`
unfoldable pub get_snapshot_index : ℕ → List Snapshot → Option ℕ
get_snapshot_index id [] = none
get_snapshot_index id (s ∷ ss) =
    let rest = get_snapshot_index id ss in
    if s.id == id
    then some 0
    else if ltb id s.id
    then none
    else elim rest [ none ↦ none | some i ↦ some (suc i) ]

unfoldable pub remove_snapshot : ℕ → NodeState → NodeState
unfolding get_snapshot_index
remove_snapshot id n = elim (get_snapshot_index id n.snapshots) [
  | none ↦ n
  | some i ↦ record n { snapshots = take i n.snapshots }
]

-- the irregular state of the latest block, or else the given root
unfoldable pub root_of : Block → List (ℕ × ℕ) → ℕ → ℕ
root_of latest irregular root = elim (get latest.number irregular) [ none ↦ root | some r ↦ r ]

-- the snapshot of a node with its latest block, on a date
abbrev pub snapshot_of : ℕ → Block → NodeState → Snapshot
snapshot_of now latest n = record {
  id = n.next_snapshot_id;
  date = now;
  latest_block = latest;
  state_root = n.state_root;
  tx_pool_snapshot_id = (State.snapshot n.pool).1;
  clock = n.clock;
  irregular_states = n.irregular_states;
  user_provided_base_fee = n.user_provided_base_fee;
  coinbase = n.coinbase;
  mix_hash_generator = n.mix_hash_generator;
}

unfoldable pub make_snapshot : ℕ → Block → NodeState → NodeState
make_snapshot now latest n = record n {
  pool = (State.snapshot n.pool).0;
  snapshots = n.snapshots ++ snapshot_of now latest n ∷ [];
  next_snapshot_id = n.next_snapshot_id + 1;
}

module _ (lib : BlockLibrary) where
  -- `getLatestBlock`, which may make a reserved block
  unfoldable pub latest_block_of : NodeState → Outcome NodeError NodeState Block
  latest_block_of n = elim (get_latest_block lib n.chain) [
    | ok b c ↦ ok b (record n { chain = c })
    | throws e c ↦ throws (chain_error e) (record n { chain = c })
  ]

  unfoldable pub take_snapshot : ℕ → NodeState → Outcome NodeError NodeState ℕ
  unfolding latest_block_of make_snapshot
  take_snapshot now n = elim (latest_block_of n) [
    | throws e n' ↦ throws e n'
    | ok latest n' ↦ ok n.next_snapshot_id (make_snapshot now latest n')
  ]

  -- from the deletion of the later blocks to the new time increment
  unfoldable pub restore_chain : ℕ → Snapshot → NodeState → Outcome NodeError NodeState (Unit {0})
  unfolding latest_block_of root_of
  restore_chain now s n = elim (delete_later_blocks lib s.latest_block n.chain) [
    | throws e c ↦ throws (chain_error e) (record n { chain = c })
    | ok u c ↦
        elim (latest_block_of (record n { chain = c; irregular_states = s.irregular_states })) [
          | throws e n' ↦ throws e n'
          | ok latest n' ↦ ok tt (record n' {
            state_root = root_of latest s.irregular_states s.state_root;
            clock = revert_clock s.date now s.clock;
          })
        ]
  ]

  -- from the pool's revert on, for the snapshot at an index
  unfoldable pub restore_rest : ℕ → Snapshot → NodeState → Outcome NodeError NodeState Bool
  restore_rest i s n = elim (State.revert s.tx_pool_snapshot_id n.pool) [
    | throws e p ↦ throws (pool_error e) (record n { pool = p })
    | ok u p ↦ ok true (record n {
      pool = p;
      user_provided_base_fee = s.user_provided_base_fee;
      coinbase = s.coinbase;
      mix_hash_generator = s.mix_hash_generator;
      snapshots = take i n.snapshots;
    })
  ]

  unfoldable pub revert_to_snapshot : ℕ → ℕ → NodeState → Outcome NodeError NodeState Bool
  unfolding get_snapshot_index restore_chain restore_rest
  revert_to_snapshot now id n = elim (get_snapshot_index id n.snapshots) [
    | none ↦ ok false n
    | some i ↦ elim (get_elem? n.snapshots i) [
      | none ↦ throws no_snapshot_at_index n
      | some s ↦ elim (restore_chain now s n) [
        | throws e n' ↦ throws e n'
        | ok u n' ↦ restore_rest i s n'
      ]
    ]
  ]
