-- ===== src/Mcp/Env.antt =====
-- internal/mcp/mcpstdio: the environment of a child process, a list of texts KEY=VALUE.
pub mod Merge
pub mod Override
pub mod File
pub mod Missing
pub mod Keys
pub mod Build
pub mod Allowed
mod Tests
