-- ===== src/Mcp/JsonRpc/Pending/Run.antt =====
-- internal/mcp/mcpstdio/jsonrpc.go: the operations of PendingMap in any order.
use orbitproxy_go.Prelude.{
  ℕ, ◌+◌, ◌^◌, ◌≤◌, ◌<◌, ◌≡◌, refl, ap, Bool, Text, text_Eq, List, [], ◌∷◌, Option, none, some,
  length, arith,
}
use orbitproxy_go.Mcp.JsonRpc.{Message}
use orbitproxy_go.Mcp.JsonRpc.Pending.{
  PendingMap, new_pending_map, register, expire, dispatch, close_all,
}
use orbitproxy_go.Mcp.JsonRpc.Pending.Safety.{
  PendingInv, register-PendingInv, expire-PendingInv, dispatch-PendingInv, close_all-PendingInv,
}

-- The operations of the goroutines, in the order in which they hold the lock.
pub data Op : Type 0 where
  registers : (oid : List ℕ) (now timeout : ℕ) → Op
  expires : (key : Text) (ch : ℕ) → Op
  dispatches : Message → Op
  closes_all : Op

abbrev pub map_of : Option (PendingMap × Bool) → Option PendingMap
map_of none = none
map_of (some (pm, found)) = some pm

unfoldable pub step : Op → PendingMap → Option PendingMap
step (registers oid now timeout) pm = some (register oid now timeout pm).0
step (expires key ch) pm = expire key ch pm
step (dispatches m) pm = map_of (dispatch m pm)
step closes_all pm = close_all pm

unfoldable pub run : List Op → PendingMap → Option PendingMap
run [] pm = some pm
run (op ∷ ops) pm = elim (step op pm) [ none ↦ none | some pm' ↦ run ops pm' ]

pub step-PendingInv :
    (op : Op) (pm : PendingMap)
    → pm.next_id + 1 < 2 ^ 63
    → PendingInv pm
    → (pm' : PendingMap) × (step op pm ≡ some pm') × PendingInv pm' × (pm'.next_id ≤ pm.next_id + 1)
unfolding step register
step-PendingInv (registers oid now timeout) pm b v =
    (_, refl, register-PendingInv oid now timeout pm b v, omega arith)
step-PendingInv (expires key ch) pm b v =
    let (pm', run, v', id) = expire-PendingInv key ch pm v in (pm', run, v', omega (arith, id))
step-PendingInv (dispatches m) pm b v =
    let (pm', found, run, v', id) = dispatch-PendingInv m pm v in
    (pm', ap map_of run, v', omega (arith, id))
step-PendingInv closes_all pm b v =
    let (pm', run, v', id, _) = close_all-PendingInv pm v in (pm', run, v', omega (arith, id))

run-PendingInv :
    (ops : List Op) (pm : PendingMap)
    → pm.next_id + length ops < 2 ^ 63
    → PendingInv pm
    → (pm' : PendingMap) × (run ops pm ≡ some pm') × PendingInv pm'
unfolding run
run-PendingInv [] pm b v = (pm, refl, v)
run-PendingInv (op ∷ ops) pm b v =
    let (pm', one, v', id) = step-PendingInv op pm (omega arith) v in
    let (pm'', rest, v'') = run-PendingInv ops pm' (omega (arith, id)) v' in
    (pm'', rw (one, run) rest, v'')

pub new_pending_map-PendingInv : PendingInv new_pending_map
unfolding new_pending_map
new_pending_map-PendingInv = record { keys = tt; waiting = tt }

-- Fewer than 2^63 - 1 operations on a new PendingMap, in any order and with any arguments, run to
-- their end: no response is sent on a closed or a full channel and no channel is closed twice. In the
-- map that they leave each key is unique, is the id of its entry's channel, and that channel is open
-- and empty.
pub run-total :
    (ops : List Op)
    → length ops + 1 < 2 ^ 63
    → (pm : PendingMap) × (run ops new_pending_map ≡ some pm) × PendingInv pm
run-total ops b =
    run-PendingInv ops new_pending_map (unfold new_pending_map in omega arith)
      new_pending_map-PendingInv
