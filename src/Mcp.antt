-- ===== src/Mcp.antt =====
-- The stdio side of the MCP gateway (internal/mcp).
pub mod Tail
pub mod JsonRpc
pub mod Diagnostic
pub mod Env
pub mod Payload
pub mod SpawnConfig
pub mod Pool
pub mod Schema
pub mod Errors
pub mod Discover
pub mod Session
pub mod Bridge
pub mod Userenv
pub mod Preflight
pub mod Shutdown
