-- ===== src/Examples/PoolRuns.antt =====
-- The pool's theorems at pools that a few calls have made.
use hardhat.Prelude.{
  ℕ, ◌+◌, ◌≡◌, refl, false, List, [], ◌∷◌, ◌++◌, some, none, ok, throws, after, All, length, arith,
  ◌<◌,
}
use mathlib.Core.List.{Perm}
use hardhat.Examples.Libraries.{library, library-RoundTrips, transfer, impersonated, accounts}
use hardhat.Transactions.{
  SerializedTransaction, sender_of, serialize_transaction, deserialize_transaction,
}
use hardhat.TxPool.Add.{
  add_transaction, add_queued_transaction, add_pending_transaction, validate_transaction,
  is_known_transaction, replace_tx,
}
use hardhat.TxPool.Eviction.{SweepsTo, staying, moving, sweep_pending-Swept}
use hardhat.TxPool.Invariant.{Inv, add_transaction-Inv}
use hardhat.TxPool.Moves.{reorganize-moves_every_executable}
use hardhat.TxPool.Order.{Consecutive, Distinct}
use hardhat.TxPool.Removal.{remove_transaction-Inv}
use hardhat.TxPool.Remove.{remove_transaction}
use hardhat.TxPool.Reorganize.{reorganize_transactions_lists}
use hardhat.TxPool.Snapshots.{remove, update, snap, revert_to, calls, revert-snapshot}
use hardhat.TxPool.State.{
  Account, TxPool, init, snapshot, revert, no_such_snapshot, pending_for, queued_for,
  get_next_pending_nonce,
}
use hardhat.TxPool.Update.{is_tx_valid}
use hardhat.TxPool.Filed.{FilesOrRefuses, add_transaction-IsFiled}

abbrev empty_pool : TxPool
unfolding init
empty_pool = init 30000000

abbrev added : ℕ → TxPool → TxPool
added nonce p = after (add_transaction library accounts (transfer nonce 10) p)

-- the transfers with the nonces 0 and 2, the second of them queued
abbrev two_transfers : TxPool
two_transfers = added 2 (added 0 empty_pool)

empty_pool-Inv : Inv library accounts empty_pool
unfolding empty_pool
empty_pool-Inv a = record { gapless = tt; beyond = tt; distinct = tt }

one_transfer-Inv : Inv library accounts (added 0 empty_pool)
one_transfer-Inv =
    add_transaction-Inv library library-RoundTrips accounts (transfer 0 10) empty_pool
      empty_pool-Inv

two_transfers-Inv : Inv library accounts two_transfers
two_transfers-Inv =
    add_transaction-Inv library library-RoundTrips accounts (transfer 2 10) (added 0 empty_pool)
      one_transfer-Inv

-- the transfer with the nonce 1 closes the gap
add_transaction-Inv_example : Inv library accounts (added 1 two_transfers)
add_transaction-Inv_example =
    add_transaction-Inv library library-RoundTrips accounts (transfer 1 10) two_transfers
      two_transfers-Inv

gap_is_closed :
    (length (queued_for two_transfers 7) ≡ 1)
    × (length (pending_for (added 1 two_transfers) 7) ≡ 3)
    × (queued_for (added 1 two_transfers) 7 ≡ [])
unfolding empty_pool add_transaction init sender_of validate_transaction is_known_transaction
    get_next_pending_nonce add_pending_transaction replace_tx reorganize_transactions_lists
    deserialize_transaction serialize_transaction add_queued_transaction
gap_is_closed = (refl, refl, refl)

remove_transaction-Inv_example :
    Inv library accounts (after (remove_transaction library 10 two_transfers))
remove_transaction-Inv_example =
    remove_transaction-Inv library accounts 10 two_transfers two_transfers-Inv

reorganize-moves_every_executable_example :
    (moved left : List ℕ) × (reorganize_transactions_lists (λ n. n) (4 ∷ 5 ∷ []) (9 ∷ 7 ∷ 6 ∷ [])
      ≡ some ((4 ∷ 5 ∷ []) ++ moved, left))
    × Perm (moved ++ left) (9 ∷ 7 ∷ 6 ∷ [])
    × Consecutive (λ n. n) 4 ((4 ∷ 5 ∷ []) ++ moved)
    × All (λ q. 4 + length ((4 ∷ 5 ∷ []) ++ moved) < q) left
    × Distinct (λ n. n) left
reorganize-moves_every_executable_example =
    reorganize-moves_every_executable (λ n. n) 4 (4 ∷ 5 ∷ []) (9 ∷ 7 ∷ 6 ∷ []) 5 refl
      (refl, (refl, tt)) (omega arith, (omega arith, (omega arith, tt)))
      (
        (λ e. omega (arith, e), (λ e. omega (arith, e), tt)),
        ((λ e. omega (arith, e), tt), (tt, tt)),
      )

-- a transfer as the pool stores it
abbrev pub stored : ℕ → ℕ → SerializedTransaction
stored nonce price = record {
  order_id = nonce;
  fake_from = none;
  rlp = library.serialize (transfer nonce price);
  tx_type = 0;
}

-- three transfers, the second of which the sender cannot pay
abbrev three_stored : List SerializedTransaction
three_stored = stored 0 10 ∷ stored 1 1000 ∷ stored 2 10 ∷ []

abbrev pool_of_three : TxPool
pool_of_three = record {
  state = record {
    pending = (7, three_stored) ∷ [];
    queued = [];
    by_hash = (10, stored 0 10) ∷ (1001000, stored 1 1000) ∷ (2000010, stored 2 10) ∷ [];
    block_gas_limit = 30000000;
  };
  snapshots = [];
  next_snapshot_id = 0;
  next_order_id = 3;
}

abbrev poor_account : Account
poor_account = record { nonce = 0; balance = 1000000 }

-- the third transfer moves to the queue
third_moves :
    (staying library 7 poor_account 30000000 three_stored ≡ stored 0 10 ∷ [])
    × (moving library 7 poor_account 30000000 three_stored ≡ stored 2 10 ∷ [])
unfolding staying moving is_tx_valid deserialize_transaction
third_moves = (refl, refl)

revert-snapshot_example :
    let (taken, id) = snapshot pool_of_three in
    (q : TxPool) × (revert id
        (calls library (remove 10 ∷ snap ∷ update accounts ∷ revert_to 1 ∷ []) taken)
      ≡ ok tt q)
    × (q.state ≡ pool_of_three.state)
    × (revert id q ≡ throws no_such_snapshot q)
unfolding snapshot
revert-snapshot_example =
    revert-snapshot library (remove 10 ∷ snap ∷ update accounts ∷ revert_to 1 ∷ []) pool_of_three
      (tt, (tt, (tt, (omega arith, tt))))

add_transaction-IsFiled_example :
    FilesOrRefuses library accounts impersonated two_transfers
      (add_transaction library accounts impersonated two_transfers)
add_transaction-IsFiled_example =
    add_transaction-IsFiled library accounts impersonated two_transfers

sweep_pending-Swept_example :
    SweepsTo library 7 poor_account three_stored false pool_of_three.state.pending pool_of_three
      ([] ++ staying library 7 poor_account 30000000 three_stored)
      (moving library 7 poor_account 30000000 three_stored)
unfolding deserialize_transaction serialize_transaction
sweep_pending-Swept_example =
    sweep_pending-Swept library 7 poor_account [] three_stored pool_of_three.state.pending
      pool_of_three refl (refl, (refl, (refl, tt)))
      (
        (λ e. omega (arith, e), (λ e. omega (arith, e), tt)),
        ((λ e. omega (arith, e), tt), (tt, tt)),
      )
