-- ===== src/Blockchain.antt =====
-- The chain of the development network: packages/hardhat-core/src/internal/hardhat-network/
-- provider/BlockchainData.ts, BlockchainBase.ts and HardhatBlockchain.ts.
pub mod Types
pub mod Data
pub mod Chain
pub mod Reservations
pub mod Timestamps
pub mod ReadOrder
pub mod Deletion
pub mod Lookups
