-- ===== src/Mcp/JsonRpc/Kinds.antt =====
-- A message is of one kind at most.
use orbitproxy_go.Prelude.{ℕ, ◌+◌, ◌≡◌, Bool, arith, length, ◌==◌, if◌then◌else◌}
use orbitproxy_go.Mcp.JsonRpc.{Message, is_request, is_response, is_notification}

abbrev count : Bool → ℕ
count b = if b then 1 else 0

-- A message is exactly one of a request, a response and a notification, unless it has neither an id
-- nor a method, when it is none of them.
pub message_kinds :
    (m : Message)
    → count (is_request m) + count (is_response m) + count (is_notification m)
      ≡ (if length m.id + length m.method == 0 then 0 else 1)
unfolding is_request is_response is_notification
message_kinds m = ground arith
