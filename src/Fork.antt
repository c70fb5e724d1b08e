-- ===== src/Fork.antt =====
-- The state of a forked network: packages/hardhat-core/src/internal/hardhat-network/provider/fork/
-- ForkStateManager.ts and AccountState.ts. The remote node, which is asked through the JSON-RPC
-- client, and the hash function are parameters.
pub mod State
pub mod Writes
pub mod Roots
pub mod World
pub mod Refinement
pub mod Kept
pub mod Checkpoints
pub mod Returns
pub mod Contexts
pub mod Copies
