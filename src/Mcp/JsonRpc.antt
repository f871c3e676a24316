-- ===== src/Mcp/JsonRpc.antt =====
-- internal/mcp/mcpstdio/jsonrpc.go: the JSON-RPC messages of a stdio session, and how their kinds are
-- told apart. The fields are raw JSON texts; an absent field is empty.
pub mod Pending
pub mod Kinds
pub mod Lines
use orbitproxy_go.Prelude.{ℕ, Bool, ◌&&◌, ◌==◌, List, length, ltb}

pub record Message : Type 0 where
  pub json_rpc : List ℕ
  pub id : List ℕ
  pub method : List ℕ
  pub params : List ℕ
  pub result : List ℕ
  pub error : List ℕ

unfoldable pub is_request : Message → Bool
is_request m = ltb 0 (length m.id) && ltb 0 (length m.method)

unfoldable pub is_response : Message → Bool
is_response m = ltb 0 (length m.id) && length m.method == 0

unfoldable pub is_notification : Message → Bool
is_notification m = length m.id == 0 && ltb 0 (length m.method)
