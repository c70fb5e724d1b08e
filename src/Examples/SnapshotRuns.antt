-- ===== src/Examples/SnapshotRuns.antt =====
-- A snapshot of a node with one block, and the revert to it once four blocks are reserved.
use hardhat.Prelude.{◌≡◌, refl, true, List, [], ◌∷◌, ◌++◌, none, some, ok}
use hardhat.Prelude.Int.{pos}
use hardhat.Blockchain.Chain.{HardhatBlockchain, get_latest_block, get_block}
use hardhat.Blockchain.Data.{is_reserved_block, find_block_reservation}
use hardhat.Examples.ChainRuns.{
  block_library, genesis, reserved_once, reserved_once-IsSound, chain, chain-IsNumbered,
}
use hardhat.Examples.Libraries.{library, accounts}
use hardhat.Examples.NodeRuns.{pool_of_two}
use hardhat.Node.Snapshots.{
  NodeState, latest_block_of, snapshot_of, make_snapshot, take_snapshot, revert_to_snapshot,
}
use hardhat.Node.Snapshots.Restores.{IsRestored, revert_to_snapshot-IsRestored}
use hardhat.TxPool.Snapshots.{Call, remove, update, snap, calls}

abbrev one_block : HardhatBlockchain
one_block = record { state = record reserved_once { reservations = [] }; length = 1 }

abbrev node : NodeState
node = record {
  snapshots = [];
  next_snapshot_id = 1;
  pool = pool_of_two;
  chain = one_block;
  state_root = 77;
  clock = record { time_offset = pos 0; next_block_timestamp = 0 };
  irregular_states = [];
  user_provided_base_fee = some 9;
  coinbase = 5;
  mix_hash_generator = 11;
}

abbrev pool_calls : List Call
pool_calls = remove 10 ∷ snap ∷ update accounts ∷ []

-- the node a second later, with another snapshot
abbrev after_snapshot : NodeState
after_snapshot = make_snapshot 1000 genesis node

abbrev later_node : NodeState
later_node = record after_snapshot {
  pool = calls library pool_calls after_snapshot.pool;
  snapshots = after_snapshot.snapshots ++ snapshot_of 1500 genesis after_snapshot ∷ [];
  chain = chain;
  state_root = 78;
  coinbase = 6;
  user_provided_base_fee = none;
}

revert_to_snapshot-IsRestored_example :
    (take_snapshot block_library 1000 node ≡ ok 1 after_snapshot)
    × (n' : NodeState) × (revert_to_snapshot block_library 2000 1 later_node ≡ ok true n')
    × IsRestored block_library 1000 2000 genesis node later_node n'
unfolding latest_block_of get_latest_block get_block is_reserved_block find_block_reservation
    make_snapshot
revert_to_snapshot-IsRestored_example =
    revert_to_snapshot-IsRestored block_library library 1000 2000 genesis node later_node
      (snapshot_of 1500 genesis after_snapshot ∷ []) pool_calls tt refl refl refl
      (tt, (tt, (tt, tt)))
      (record {
        sound = reserved_once-IsSound;
        numbered = chain-IsNumbered;
        by_hash = refl;
        by_number = refl;
      })
