-- ===== src/Filters.antt =====
-- Log filters: packages/hardhat-core/src/internal/hardhat-network/provider/filter.ts, and the log
-- query of BlockchainData.ts, which uses it.
pub mod Criteria
pub mod Matching
pub mod Bloom
