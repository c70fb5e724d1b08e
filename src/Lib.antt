-- ===== src/Lib.antt =====
-- A model of the state that Hardhat Network keeps for its node: the transaction pool, the queue of
-- the transactions for a block, the chain with its reserved blocks, the filters on its logs, and of
-- the node the mining of a block, the clock, the snapshots and the estimation of gas, and of a
-- forked network the local state over the remote one. Beside it stand the contracts that are
-- recognized by their bytecode, and the arguments of tasks on the command line. What is named
-- without a directory below is in packages/hardhat-core/src/internal/hardhat-network/provider/.
--
-- The node adds transactions to the pool, takes the pending ones into a transaction queue when it
-- mines a block, adds the block to the chain and lets the pool update its lists. It reserves ranges
-- of blocks instead of mining them one by one, and reads logs through the filters. A revert to a
-- snapshot reverts the pool, deletes the later blocks of the chain and sets the clock back. The
-- timer of interval mining runs beside them. When the network forks another one, the state manager
-- keeps what the node's transactions change and asks the remote node for the rest; the node runs a
-- call in the context of an earlier block and goes back. The stack traces of failed transactions
-- start from the contract that a trace's code is identified as.
--
-- The files:
--   Prelude          Boolean tests, lists, association lists, integers, and `Outcome`: a result or
--                    an error, each with the state that is left. No change is undone by an error.
--   Transactions     PoolState.ts, serializeTransaction and deserializeTransaction of TxPool.ts
--   TxPool           TxPool.ts. State: the fields and the methods that read, with snapshots.
--                    Add: addTransaction. Remove: removeTransaction and _removeTx. Update:
--                    updatePendingAndQueued. Reorganize: utils/reorganizeTransactionsLists.ts.
--                    Order, Moves, Cases, Validation, Filed, Invariant, Removal, Frame and Snapshots hold
--                    the proofs, and Sweep, Eviction, Evicted, QueueSweep, SweepAll and Maintenance
--                    those on updatePendingAndQueued.
--   TransactionQueue TransactionQueue.ts (Comparators, Queue), with Order, Orderly, Drain and
--                    Filled for the proofs
--   Blockchain       BlockchainData.ts (Data), BlockchainBase.ts and HardhatBlockchain.ts (Chain),
--                    the records (Types) and the look-ups (Lookups), with Reservations,
--                    Timestamps, ReadOrder and Deletion for the proofs
--   Filters          filter.ts and getLogs of BlockchainData.ts (Criteria), with Matching and Bloom
--                    for the proofs
--   MiningTimer      MiningTimer.ts (Timer), with Steps and Loops for the proofs
--   Node             node.ts. Assembly: _mineBlockWithPendingTxs and _isTxMinable, with Progress,
--                    Limits, Offered, Nonces and Mined for the proofs. Clock: the clock's part of mineBlock
--                    and of revertToSnapshot and the guards of modules/evm.ts, with Timeline,
--                    Steps and OnTime. Snapshots: takeSnapshot and revertToSnapshot, with Restores.
--                    GasEstimation: _binarySearchEstimation and _correctInitialEstimation, with
--                    Search. Automine: _validateAutominedTx, with Readiness. FeeHistory:
--                    _getRewards, with Percentiles.
--   Fork             fork/ForkStateManager.ts and fork/AccountState.ts. State: the fields and the
--                    methods that read. Writes: those that change accounts. Roots: state roots,
--                    checkpoints and contexts, with _runInBlockContext of node.ts. World is what
--                    they stand for; Refinement, Kept, Checkpoints, Returns, Contexts and
--                    Copies hold the proofs.
--   StackTraces      contracts-identifier.ts (Trie, Identifier and Metadata), library-utils.ts
--                    (Slices) and the lengths of opcodes.ts (Bytecodes) of
--                    packages/hardhat-core/src/internal/hardhat-network/stack-traces/, with Walks,
--                    Searches, Identified, Fits, Ways and CacheRuns for the proofs
--   Cli              packages/hardhat-core/src/internal/cli/ArgumentsParser.ts: the names of
--                    parameters (Names) and the class (Arguments), with CamelCase, Typed and
--                    Complete for the proofs
--   Tasks            the class SimpleTaskDefinition of packages/hardhat-core/src/internal/core/tasks/
--                    task-definitions.ts (Definitions), with Building, WellFormed and Parsed for the
--                    proofs; what it builds is what Cli parses arguments for
--   ReturnData       return-data.ts
--   ContractNames    utils/contract-names.ts of hardhat-core/src/, with RoundTrip
--   ReorgsProtection utils/reorgs-protection.ts
--   Examples         concrete libraries and states, and the theorems applied to them
--
-- Names are those of the source in snake case, with a parameter for each library (ethereumjs,
-- mnemonist) and its laws where they are relied on. bigint and number are the natural numbers, and
-- the integers where the source's values can be negative. Hashes, addresses and hex strings of a
-- known length are natural numbers. A Map is an association list in the order of insertion. An
-- immutable list is a list, and its `sortBy` the stable sort that it documents. The accounts of the
-- state manager are a function, since no method of the pool changes them. What the three FakeSender
-- classes make with ethereumjs's RLP decoder and constructors is a parameter, of which the
-- transaction's type chooses one. The irregular states, the table of state roots and the generators
-- are values: roots that a fork's state manager or its copy adds to the table behind the copying are
-- not seen by the other. Letters are those of ASCII where the source changes their case,
-- and the parser of a task argument's type either throws or gives a value.
--
-- Fuel: `calculate_timestamp` recurs to a smaller block number, and more fuel than the number is
-- given; `delete_loop` goes up from its start to the length of the chain, and has the length as
-- fuel. The loop of `_mineBlockWithPendingTxs` takes a transaction out of the queue in each round,
-- and has one round more than the queue holds; the search of `_binarySearchEstimation` stops by
-- itself behind its round 20, and has 22. The loop of `_isMatchingMetadata` goes on by at least
-- one byte in each round, and has a round for each byte before its end and one more.
--
-- Not modelled: of node.ts, sending transactions but for their validation, mineBlocks, running
-- calls and traces, and the fee history but for its rewards; the blocks of a forked network and the
-- methods of its state manager that only throw, the JSON-RPC layer but for the guards of evm_mine
-- and evm_setNextBlockTimestamp, stack traces but for the contracts, compilation, running tasks,
-- configuration, and the other packages. In the snapshots of the node, a state root that was set is
-- taken to be there when it is set again.
pub mod Prelude
pub mod Transactions
pub mod TxPool
pub mod TransactionQueue
pub mod Blockchain
pub mod Filters
pub mod MiningTimer
pub mod Node
pub mod StackTraces
pub mod Fork
pub mod Cli
pub mod Tasks
pub mod ReturnData
pub mod ContractNames
pub mod ReorgsProtection
mod Examples
