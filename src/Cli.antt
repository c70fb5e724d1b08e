-- ===== src/Cli.antt =====
-- The arguments of the command line: packages/hardhat-core/src/internal/cli/ArgumentsParser.ts. A
-- string is the list of its UTF-16 code units, and only the letters of ASCII have another case.
pub mod Names
pub mod CamelCase
pub mod Arguments
pub mod Typed
pub mod Complete
