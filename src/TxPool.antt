-- ===== src/TxPool.antt =====
-- The transaction pool, packages/hardhat-core/src/internal/hardhat-network/provider/TxPool.ts with
-- PoolState.ts and utils/reorganizeTransactionsLists.ts.
pub mod State
pub mod Reorganize
pub mod Add
pub mod Order
pub mod Moves
pub mod Remove
pub mod Update
pub mod Cases
pub mod Validation
pub mod Filed
pub mod Invariant
pub mod Removal
pub mod Sweep
pub mod Snapshots
pub mod Eviction
pub mod Frame
pub mod QueueSweep
pub mod Evicted
pub mod SweepAll
pub mod Maintenance
