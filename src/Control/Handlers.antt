-- ===== src/Control/Handlers.antt =====
-- internal/gateway_ctl: control.go and control_handlers.go, the messages of the edge that change the
-- session. A message that is sent goes to `sent`, the last one first; Send does not fail here. The
-- tools/list and preflight runs that a handler starts are listed, not run; proclife's calls are counted.
use orbitproxy_go.Prelude.{
  ℕ, suc, ◌-◌, ◌^◌, ℤ, pos, negsuc, Bool, true, false, not, ◌||◌, Text, text_eq, codes, List, [],
  ◌∷◌, Option, none, some, ltb, if◌then◌else◌, trim_space,
}
use orbitproxy_go.Wire.Message.{
  Message, ServerHello, NewEndpoint, CloseEndpoint, DiscoverTools, ExecPreflight,
  ExecPreflightResult, Disconnect, Stop, Restart, Update,
}
use orbitproxy_go.Mcp.Diagnostic.{Diagnostic}
use orbitproxy_go.Mcp.Payload.{ExecPayload}
use orbitproxy_go.Endpoint.Delivery.{LocalServicePayload}
use orbitproxy_go.Endpoint.Manager
use orbitproxy_go.Endpoint.Manager.{handle_new_endpoint, handle_close_endpoint}

-- The atomics permanentDisconnect and disconnectReason, the session id, and what has been done.
pub record Control : Type 0 where
  pub session_id : Text
  pub endpoint_mgr : Manager.Manager
  pub sent : List Message
  pub discovering : List DiscoverTools
  pub permanent_disconnect : Bool
  pub disconnect_reason : Text
  pub is_closed : Bool
  pub restarts : ℕ

-- NewControl and the seeding of the session id in registerMsgHandlers.
unfoldable pub new_control : Text → Manager.Manager → Control
new_control session_id mgr = record {
  session_id = session_id;
  endpoint_mgr = mgr;
  sent = [];
  discovering = [];
  permanent_disconnect = false;
  disconnect_reason = [];
  is_closed = false;
  restarts = 0;
}

unfoldable pub mark_permanent_disconnect : Text → Control → Control
mark_permanent_disconnect reason ctl = record ctl {
  permanent_disconnect = true;
  disconnect_reason = reason;
}

unfoldable pub close_session : Control → Control
close_session ctl = record ctl { is_closed = true }

unfoldable pub send : Message → Control → Control
send m ctl = record ctl { sent = m ∷ ctl.sent }

unfoldable pub handle_server_hello : ServerHello → Control → Control
handle_server_hello hello ctl = record ctl { session_id = hello.session_id }

module _ (unmarshal : List ℕ → LocalServicePayload × Bool)
    (unmarshal_exec : List ℕ → Option ExecPayload) where
  -- handleNewEndpoint: the manager, and the tools/list run that the message may ask for.
  unfoldable pub install_endpoint : NewEndpoint → Control → Control
  install_endpoint new ctl =
      let done : Control = record ctl {
        endpoint_mgr = handle_new_endpoint unmarshal unmarshal_exec new ctl.endpoint_mgr;
      } in
      if not (text_eq new.error []) then done else elim new.discover_tools [
        | none ↦ done
        | some opts ↦ if text_eq (trim_space opts.request_id) [] then done else record done {
          discovering =
              record {
                request_id = opts.request_id;
                endpoint_id = new.endpoint_id;
                timeout_seconds = opts.timeout_seconds;
              }
              ∷ ctl.discovering;
        }
      ]

-- handleCloseEndpoint
unfoldable pub remove_endpoint : CloseEndpoint → Control → Control
remove_endpoint c ctl = record ctl { endpoint_mgr = handle_close_endpoint c ctl.endpoint_mgr }

unfoldable pub ack_lifecycle : Text → Text → Text → Text → Text → Control → Control
ack_lifecycle request_id status error_code error_message version ctl =
    if text_eq (trim_space request_id) []
    then ctl
    else send
        (Message.lifecycle_result (record {
          request_id = request_id;
          status = status;
          error_code = error_code;
          error_message = error_message;
          version = version;
        }))
        ctl

unfoldable pub handle_disconnect : Disconnect → Control → Control
handle_disconnect d ctl =
    let given = if not (text_eq d.reason_text []) then d.reason_text else d.reason in
    let reason = if text_eq given [] then codes "edge disconnected session" else given in
    close_session (mark_permanent_disconnect reason ctl)

unfoldable pub handle_stop : Stop → Control → Control
handle_stop s ctl =
    let acked = ack_lifecycle s.request_id (codes "succeeded") [] [] [] ctl in
    let reason = if text_eq s.reason [] then codes "stopped" else s.reason in
    close_session (mark_permanent_disconnect reason acked)

-- proclife.Restart is called; a failure of it is only logged.
unfoldable pub handle_restart : Restart → Control → Control
handle_restart r ctl =
    let acked = ack_lifecycle r.request_id (codes "succeeded") [] [] [] ctl in
    record acked { restarts = suc acked.restarts }

-- `install` is the error text of proclife.InstallFromURL, if there is one.
unfoldable pub handle_update : Option Text → Update → Control → Control
handle_update (some e) u ctl =
    ack_lifecycle u.request_id (codes "failed") (codes "internal") e [] ctl
handle_update none u ctl =
    let acked = ack_lifecycle u.request_id (codes "succeeded") [] [] u.version ctl in
    record acked { restarts = suc acked.restarts }

-- An int from its bit pattern.
abbrev pub int_of : ℕ → ℤ
int_of n = if ltb n (2 ^ 63) then pos n else negsuc (2 ^ 64 - 1 - n)

unfoldable pub report_endpoint_diagnostic : Diagnostic → Control → Control
report_endpoint_diagnostic diag ctl =
    send
      (Message.endpoint_diagnostic (record {
        endpoint_id = diag.endpoint_id;
        level = codes "error";
        error_code = diag.code;
        message = diag.message;
        stderr_tail = diag.stderr_tail;
        occurred_count = int_of diag.occur_count;
      }))
      ctl

-- What preflight.CheckCommand gives.
pub record CommandResult : Type 0 where
  pub is_ok : Bool
  pub error_code : Text
  pub error_message : Text
  pub resolved_path : Text

-- The three flags of a failed check, by its code.
unfoldable pub preflight_flags : CommandResult → Bool × Bool × Bool
preflight_flags pf =
    if text_eq pf.error_code (codes "command_not_found")
    then (false, false, false)
    else if text_eq pf.error_code (codes "package_not_installed")
    then (true, true, false)
    else if text_eq pf.error_code (codes "command_not_executable")
    then (true, false, false)
    else if text_eq pf.error_code (codes "spawn_failed")
    then (true, true, false)
    else if not (text_eq pf.resolved_path [])
    then (true, true, false)
    else (false, false, false)

-- The result that handleExecPreflight sends; the ids are without surrounding blanks.
unfoldable pub preflight_result : Text → Text → CommandResult → ExecPreflightResult
preflight_result request_id endpoint_id pf =
    let (found, executable, workdir) =
      if pf.is_ok then (true, true, true) else preflight_flags pf in
    record {
      request_id = request_id;
      endpoint_id = endpoint_id;
      status = if pf.is_ok then codes "succeeded" else codes "failed";
      error_code = if pf.is_ok then [] else pf.error_code;
      error_message = if pf.is_ok then [] else pf.error_message;
      command_found = found;
      command_executable = executable;
      workdir_exists = workdir;
      resolved_path = pf.resolved_path;
    }

-- handleExecPreflight, with `check` for preflight.CheckCommand, which may give nil.
unfoldable pub handle_exec_preflight :
    (Text → List Text → Text → Option CommandResult) → ExecPreflight → Control → Control
handle_exec_preflight check m ctl =
    let request_id = trim_space m.request_id in
    let endpoint_id = trim_space m.endpoint_id in
    let nil : CommandResult = record {
      is_ok = false;
      error_code = codes "internal";
      error_message = codes "preflight returned nil";
      resolved_path = [];
    } in
    let pf : CommandResult = elim (check m.command m.args m.work_dir) [ none ↦ nil | some r ↦ r ] in
    if text_eq request_id [] || text_eq endpoint_id []
    then ctl
    else send (Message.exec_preflight_result (preflight_result request_id endpoint_id pf)) ctl
