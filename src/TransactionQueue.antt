-- ===== src/TransactionQueue.antt =====
-- The order in which pending transactions are offered to the block builder:
-- packages/hardhat-core/src/internal/hardhat-network/provider/TransactionQueue.ts.
pub mod Comparators
pub mod Queue
pub mod Order
mod Orderly
pub mod Drain
pub mod Filled
