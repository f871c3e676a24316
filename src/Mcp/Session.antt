-- ===== src/Mcp/Session.antt =====
-- internal/mcp/mcpstdio/session.go: a stdio session on top of PendingMap. What goroutines of the session
-- do is a function for each stretch between two waits: Call up to its select, and what the select
-- wakes it with. The fields of the tails are what Sanitize makes of them; times are nanoseconds.
pub mod Prepare
pub mod Handshake
pub mod Calls
pub mod Failures
pub mod Starts
mod Tests
use orbitproxy_go.Prelude.{
  ℕ, ℤ, Bool, true, false, not, ◌&&◌, Text, codes, List, [], ◌∷◌, ◌++◌, Option, none, some,
  if◌then◌else◌,
}
use orbitproxy_go.Mcp.Errors.Code
use orbitproxy_go.Mcp.Errors.{
  Stage, handshake, settle, protocol, Report, Err, deadline_exceeded, other, typed, caused, wrap,
  new_report, with_process, Outcome, done, failed,
}
use orbitproxy_go.Mcp.JsonRpc.{Message, is_response}
use orbitproxy_go.Mcp.JsonRpc.Pending.{
  Chan, open_empty, closed, sent, PendingMap, new_pending_map, register, dispatch, close_all,
}

pub record Session : Type 0 where
  pub pending : PendingMap
  pub is_closed : Bool
  pub has_exited : Bool
  pub exit_code : Option ℤ
  pub stderr_tail : Text
  pub stdout_tail : Text
  pub stdout_noise : List Text
  pub handshake_done : Bool
  pub request_timeout : ℕ
  pub last_activity : ℕ
  pub server_name : Text
  pub server_version : Text
  pub init_result : Text

unfoldable pub is_alive : Session → Bool
is_alive s = if s.is_closed then false else not s.has_exited

-- attachEvidence
unfoldable pub attach_evidence : Session → Report → Report
attach_evidence s e = with_process s.exit_code s.stderr_tail s.stdout_tail e

unfoldable pub process_exit_error : Session → Text → Err
process_exit_error s message = typed (
    attach_evidence s (
      if not s.handshake_done
      then new_report handshake Code.exited_on_start message
      else new_report protocol Code.exited_at_runtime message))

unfoldable pub touch_activity : ℕ → Session → Session
touch_activity now s = record s { last_activity = now }

abbrev session_closed : Err
session_closed = other (codes "session closed")

-- The request as the child gets it.
unfoldable pub out_message : Message → Text → Message
out_message m internal_id = record {
  json_rpc = m.json_rpc;
  id = internal_id;
  method = m.method;
  params = m.params;
  result = [];
  error = [];
}

-- Call up to its select: the message that is written and the channel to wait on. `write_error` is the
-- text of the error of Write, if there is one.
unfoldable pub call_begin : Message → ℕ → Option Text → Session → Session × Outcome (Message × ℕ)
call_begin m now write_error s =
    if s.is_closed
    then (s, failed session_closed)
    else if not (is_alive s)
    then (s, failed (process_exit_error s (codes "subprocess already exited")))
    else let (pm, internal_id, wait) = register m.id now s.request_timeout s.pending in
      let s' : Session = record (touch_activity now s) { pending = pm } in
      elim write_error [
        | some e ↦ (s', failed (process_exit_error s' (codes "write stdin: " ++ e)))
        | none ↦ (s', done (out_message m internal_id, wait))
      ]

-- The cases of the select of Call.
pub data Woken : Type 0 where
  by_wait by_exit : Woken
  by_context : Err → Woken

abbrev waiting_exited : Text
waiting_exited = codes "subprocess exited while waiting for response"

-- A channel that was closed: the timer or CloseAll.
unfoldable pub wait_closed : Session → Err
wait_closed s =
    if not (is_alive s)
    then process_exit_error s waiting_exited
    else wrap protocol Code.timeout (codes "request timeout or session closed") deadline_exceeded

-- What Call returns when the select takes a case; `none` while that case is not ready.
unfoldable pub call_wakes : ℕ → Woken → Session → Option (Outcome Message)
call_wakes wait by_wait s = elim (s.pending.chan wait) [
  | open_empty ↦ none
  | sent resp ↦ some (done resp)
  | closed ↦ some (failed (wait_closed s))
]
call_wakes wait by_exit s =
    if s.has_exited then some (failed (process_exit_error s waiting_exited)) else none
call_wakes wait (by_context e) s = some (failed e)

-- Call, when a case is ready: the session is active again if a response has come.
unfoldable pub call_ends : ℕ → ℕ → Woken → Session → Option (Session × Outcome Message)
call_ends now wait w s = elim (call_wakes wait w s) [
  | none ↦ none
  | some (failed e) ↦ some (s, failed e)
  | some (done resp) ↦ some (touch_activity now s, done resp)
]

-- SendNotification: what it returns.
unfoldable pub send_notification : Option Text → Session → Option Err
send_notification write_error s =
    if s.is_closed
    then some session_closed
    else if not (is_alive s)
    then some (process_exit_error s (codes "subprocess already exited"))
    else elim write_error [
      | some e ↦ some (process_exit_error s (codes "write stdin: " ++ e))
      | none ↦ none
    ]

-- The session after SendNotification.
unfoldable pub after_notification : ℕ → Session → Session
after_notification now s = if is_alive s then touch_activity now s else s

-- A line on stdout: readLoop gets a message or the NonJSONLineError of a line.
pub data Line : Type 0 where
  message : Message → Line
  non_json : Text → Line

-- A round of readLoop; `none` is a panic of Dispatch.
unfoldable pub read_line : Line → Session → Option Session
read_line (non_json line) s =
    some (record s { stdout_noise = s.stdout_noise ++ (line ++ b'\n' ∷ []) ∷ [] })
read_line (message m) s =
    if is_response m
    then elim (dispatch m s.pending) [
      | none ↦ none
      | some (pm, found) ↦ some (record s { pending = pm })
    ]
    else some s

-- Close up to Shutdown, and whether the child is to be shut down.
unfoldable pub close_session : Session → Option (Session × Bool)
close_session s = if s.is_closed then some (s, false) else elim (close_all s.pending) [
  | none ↦ none
  | some pm ↦ some (record s { is_closed = true; pending = pm }, true)
]

-- waitProc after Wait, and whether the exit is reported, where there is a callback.
unfoldable pub child_exits : Option ℤ → Session → Session × Bool
child_exits code s = (record s { has_exited = true; exit_code = code }, not s.is_closed)
