-- ===== src/Node.antt =====
-- The class HardhatNode, packages/hardhat-core/src/internal/hardhat-network/provider/node.ts.
pub mod GasEstimation
pub mod Assembly
pub mod Clock
pub mod Snapshots
pub mod Automine
pub mod FeeHistory
