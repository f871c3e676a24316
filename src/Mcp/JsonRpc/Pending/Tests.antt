-- ===== src/Mcp/JsonRpc/Pending/Tests.antt =====
-- Runs of PendingMap.
use orbitproxy_go.Prelude.{◌≤◌, ◌≡◌, refl, true, false, text_Eq, codes, List, [], ◌∷◌, some, arith}
use orbitproxy_go.Prelude.Decimal.{format_int, decimal, decimal_loop}
use orbitproxy_go.Mcp.JsonRpc.{Message, is_response}
use orbitproxy_go.Mcp.JsonRpc.Pending.{PendingMap, new_pending_map, register, dispatch, sent}
use orbitproxy_go.Mcp.JsonRpc.Pending.Safety.{PendingInv}
use orbitproxy_go.Mcp.JsonRpc.Pending.Run.{
  Op, registers, expires, dispatches, closes_all, step, run, run-total, new_pending_map-PendingInv,
}
use orbitproxy_go.Mcp.JsonRpc.Pending.Delivery.{dispatch-register}
use orbitproxy_go.Mcp.JsonRpc.Pending.Served.{Served, run-Served}

-- The answer to the request "2".
abbrev answer : Message
answer = record {
  json_rpc = codes "\"2.0\"";
  id = (codes "2");
  method = [];
  params = [];
  result = (codes "true");
  error = [];
}

abbrev late : List Op
late = registers (codes "7") 0 5 ∷ expires (codes "2") 2 ∷ dispatches answer ∷ closes_all ∷ []

run-total_example : (pm : PendingMap) × (run late new_pending_map ≡ some pm) × PendingInv pm
run-total_example = run-total late (omega arith)

dispatch-register_test :
    (before after : PendingMap) × (run
        (registers (codes "8") 1 5 ∷ expires (codes "3") 3 ∷ [])
        (register (codes "\"a\"") 0 5 new_pending_map).0
      ≡ some before)
    × (dispatch answer before ≡ some (after, true))
    × (after.chan (register (codes "\"a\"") 0 5 new_pending_map).2
        ≡ sent (record answer { id = (codes "\"a\"") }))
    × (dispatch answer after ≡ some (after, false))
unfolding is_response register new_pending_map format_int decimal decimal_loop
dispatch-register_test =
    dispatch-register (codes "\"a\"") 0 5 new_pending_map
      (registers (codes "8") 1 5 ∷ expires (codes "3") 3 ∷ []) answer
      (unfold new_pending_map in omega arith) new_pending_map-PendingInv
      (tt, ((λ h. ground arith), tt)) refl refl

one_request : PendingMap
one_request = (register (codes "7") 0 5 new_pending_map).0

one_request-run :
    (run (registers (codes "7") 0 5 ∷ []) new_pending_map ≡ some one_request)
    × (2 ≤ one_request.next_id)
unfolding run step one_request register new_pending_map
one_request-run = (refl, omega arith)

run-Served_test : Served one_request 2
run-Served_test =
    run-Served (registers (codes "7") 0 5 ∷ []) one_request 2 (omega arith) one_request-run.0
      (omega arith) one_request-run.1
