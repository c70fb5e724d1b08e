-- ===== src/Examples.antt =====
-- Concrete libraries and data, and the theorems applied to them.
pub mod Libraries
pub mod PoolRuns
pub mod QueueRuns
pub mod ChainRuns
pub mod FilterRuns
pub mod ReturnRuns
pub mod TimerRuns
pub mod NodeRuns
pub mod ClockRuns
pub mod SnapshotRuns
pub mod AutomineRuns
pub mod FeeHistoryRuns
pub mod NameRuns
pub mod TraceRuns
pub mod ForkRuns
pub mod ArgumentRuns
