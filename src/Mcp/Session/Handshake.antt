-- ===== src/Mcp/Session/Handshake.antt =====
-- internal/mcp/mcpstdio/session.go: the MCP handshake, the time in which the child has to stay alive,
-- and NewSession.
use orbitproxy_go.Prelude.{
  Bool, true, not, ◌&&◌, Text, text_eq, codes, List, [], ◌∷◌, ◌++◌, Option, none, some, length, ltb,
  if◌then◌else◌,
}
use orbitproxy_go.Mcp.Errors.Code
use orbitproxy_go.Mcp.Errors.{
  handshake, settle, Report, Err, typed, caused, wrapped, as_typed, process_exited,
  is_deadline_exceeded, text_of, wrap, new_report, code_of, Outcome, done, failed,
}
use orbitproxy_go.Mcp.JsonRpc.{Message}
use orbitproxy_go.Mcp.Session.{Session, attach_evidence}

-- The Error of the chain, changed by `f`, which is what the source returns then.
unfoldable pub change_typed : (Report → Report) → Err → Err
change_typed f (typed e) = typed (f e)
change_typed f (caused e c) = caused (f e) c
change_typed f (wrapped s e) = change_typed f e
change_typed f e = e

abbrev in_handshake : Text → Report → Report
in_handshake step e = record e { stage = handshake; message = step ++ codes ": " ++ e.message }

-- attachEvidence of a Wrap.
abbrev wrap_evidence : Session → Text → Text → Err → Err
wrap_evidence s code message cause =
    change_typed (attach_evidence s) (wrap handshake code message cause)

-- `within` is the text of the handshake timeout.
unfoldable pub other_error : Session → Text → Text → Err → Err
other_error s within step err =
    if is_deadline_exceeded err
    then wrap_evidence s Code.handshake_timeout (step ++ codes ": no response within " ++ within)
        err
    else elim (as_typed err) [
      | some e ↦ change_typed (in_handshake step) err
      | none ↦ wrap_evidence s Code.handshake_rejected (step ++ codes ": " ++ text_of err) err
    ]

unfoldable pub handshake_error : Session → Text → Text → Err → Err
handshake_error s within step err = elim (as_typed err) [
  | none ↦ other_error s within step err
  | some e ↦
      if process_exited e
      then change_typed (λ e. record (in_handshake step e) { code = Code.exited_on_start }) err
      else other_error s within step err
]

-- What handshake keeps of the result. `server_info` is json.Unmarshal into the name and the version.
unfoldable pub keep_result : (Text → Option (Text × Text)) → Message → Session → Session
keep_result server_info resp s =
    if ltb 0 (length resp.result)
    then elim (server_info resp.result) [
      | none ↦ record s { init_result = resp.result }
      | some (name, version) ↦ record s {
        init_result = resp.result;
        server_name = name;
        server_version = version;
      }
    ]
    else s

-- handshake, by what Call and SendNotification give: `none` when it succeeds.
unfoldable pub shake_hands : Session → Text → Outcome Message → Option Err → Option Err
shake_hands s within (failed e) notified = some (handshake_error s within (codes "initialize") e)
shake_hands s within (done resp) notified =
    if ltb 0 (length resp.error) && not (text_eq resp.error (codes "null"))
    then some (
        typed (
          new_report handshake Code.handshake_rejected
            (codes "initialize rejected: " ++ resp.error)))
    else elim notified [
      | some e ↦ some (handshake_error s within (codes "initialized notify") e)
      | none ↦ none
    ]

-- waitSettled: the rounds of its loop see whether the child lives, until the deadline has passed.
unfoldable pub wait_settled : Session → List Bool → Option Err
wait_settled s [] = none
wait_settled s (alive ∷ rounds) =
    let rest = wait_settled s rounds in
    if not alive
    then some (
        typed (
          attach_evidence s (
            new_report settle Code.exited_after_handshake
              (codes "subprocess exited shortly after MCP handshake"))))
    else rest

-- How NewSession ends once the child runs: the session, or the error, after a Close, with the code
-- and the message of the diagnostic.
pub data Ended : Type 0 where
  started : Session → Ended
  gave_up : Err → (code message : Text) → Ended

unfoldable pub finish_session : Session → Option Err → List Bool → Ended
finish_session s shaken rounds = elim shaken [
  | some e ↦ gave_up e (code_of e) (text_of e)
  | none ↦
      let s' : Session = record s { handshake_done = true } in
      elim (wait_settled s' rounds) [
        | some e ↦ gave_up e Code.exited_after_handshake (text_of e)
        | none ↦ started s'
      ]
]
