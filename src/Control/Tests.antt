-- ===== src/Control/Tests.antt =====
-- Runs of the control session.
use orbitproxy_go.Prelude.{suc, ◌≡◌, true, false, codes, [], none, some}
use orbitproxy_go.Wire.Message.{Disconnect, Stop, Restart, Update}
use orbitproxy_go.Endpoint.Manager.{new_manager}
use orbitproxy_go.Control.Handlers.{
  Control, new_control, handle_disconnect, handle_stop, handle_restart, handle_update,
  CommandResult, preflight_result,
}
use orbitproxy_go.Control.Results.{preflight_result-flags}
use orbitproxy_go.Control.Lifecycle.{Ended, Acked, stop-Ended, restart-Acked}

abbrev ctl : Control
ctl = new_control (codes "s1") new_manager

abbrev gone : Disconnect
gone = record { reason = codes "removed"; reason_text = [] }

abbrev halt : Stop
halt = record { request_id = codes "r1"; reason = []; reason_text = [] }

abbrev again : Restart
again = record { request_id = codes " " }

abbrev newer : Update
newer = record {
  request_id = codes "r2";
  download_url = codes "https://x";
  version = codes "2";
  artifact = [];
}

stop-Ended_test :
    Ended (handle_disconnect gone ctl)
    × ((handle_disconnect gone ctl).sent ≡ ctl.sent)
    × Ended (handle_stop halt ctl)
    × Acked (codes "r1") ctl (handle_stop halt ctl)
stop-Ended_test = stop-Ended gone halt ctl

restart-Acked_test :
    Acked (codes " ") ctl (handle_restart again ctl)
    × ((handle_restart again ctl).restarts ≡ suc ctl.restarts)
    × Acked (codes "r2") ctl (handle_update none newer ctl)
    × ((handle_update none newer ctl).restarts ≡ suc ctl.restarts)
    × Acked (codes "r2") ctl (handle_update (some (codes "e")) newer ctl)
    × ((handle_update (some (codes "e")) newer ctl).restarts ≡ ctl.restarts)
restart-Acked_test = restart-Acked again newer (codes "e") ctl

abbrev failed : CommandResult
failed = record {
  is_ok = false;
  error_code = codes "package_not_installed";
  error_message = codes "x";
  resolved_path = codes "/bin/npx";
}

preflight_result-flags_test :
    let r = preflight_result (codes "r1") (codes "ep") failed in
    (r.workdir_exists ≡ false)
    × (r.workdir_exists ≡ true → r.command_executable ≡ true)
    × (r.command_executable ≡ true → r.command_found ≡ true)
    × (false ≡ true → (r.error_code ≡ []) × (r.error_message ≡ []))
preflight_result-flags_test = preflight_result-flags (codes "r1") (codes "ep") failed
