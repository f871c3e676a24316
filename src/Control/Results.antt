-- ===== src/Control/Results.antt =====
-- internal/gateway_ctl/control_handlers.go: what an exec_preflight result says.
use orbitproxy_go.Prelude.{◌≡◌, true, false, Text, [], arith}
use orbitproxy_go.Control.Handlers.{CommandResult, preflight_flags, preflight_result}

preflight_flags_lem :
    (pf : CommandResult)
    → ((preflight_flags pf).1 ≡ true → (preflight_flags pf).0 ≡ true)
      × ((preflight_flags pf).2 ≡ false)
unfolding preflight_flags
preflight_flags_lem pf = ground arith

-- The flags of an exec_preflight result agree with its status and with each other, whatever the check
-- gave: the working directory is confirmed exactly if the check succeeded, and then the command is
-- executable; a command is called executable only if it was found; and the error fields are empty
-- after a success.
pub preflight_result-flags :
    (request_id endpoint_id : Text) (pf : CommandResult)
    → let r = preflight_result request_id endpoint_id pf in
      (r.workdir_exists ≡ pf.is_ok)
      × (r.workdir_exists ≡ true → r.command_executable ≡ true)
      × (r.command_executable ≡ true → r.command_found ≡ true)
      × (pf.is_ok ≡ true → (r.error_code ≡ []) × (r.error_message ≡ []))
unfolding preflight_result
preflight_result-flags request_id endpoint_id pf = ground (arith, preflight_flags_lem pf)
