-- ===== src/Tasks.antt =====
-- The parameters of tasks: the class SimpleTaskDefinition of packages/hardhat-core/src/internal/
-- core/tasks/task-definitions.ts.
pub mod Definitions
pub mod Building
pub mod WellFormed
pub mod Parsed
