-- ===== src/MiningTimer.antt =====
-- The timer of interval mining, packages/hardhat-core/src/internal/hardhat-network/provider/
-- MiningTimer.ts.
pub mod Timer
pub mod Steps
pub mod Loops
