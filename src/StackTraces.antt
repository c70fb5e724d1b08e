-- ===== src/StackTraces.antt =====
-- How Hardhat Network recognizes the bytecode of a message trace: packages/hardhat-core/src/
-- internal/hardhat-network/stack-traces/contracts-identifier.ts, library-utils.ts and the lengths
-- of opcodes.ts. A buffer is the list of its bytes.
pub mod Bytecodes
pub mod Slices
pub mod Trie
pub mod Walks
pub mod Searches
pub mod Metadata
pub mod Identifier
pub mod CacheRuns
pub mod Identified
pub mod Fits
pub mod Ways
