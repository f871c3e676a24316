-- ===== src/Mcp/Preflight/Run.antt =====
-- internal/mcp/preflight/run.go: a full preflight. The transports, the files with the environment and
-- json.Unmarshal are the record World; `fuel` bounds the pages of the listing.
use orbitproxy_go.Prelude.{
  ℕ, ℤ, non_positive, pos_part, ◌*◌, Bool, false, not, ◌&&◌, ◌==◌, Text, codes, List, [], length,
  Option, none, some, if◌then◌else◌,
}
use orbitproxy_go.Mcp.Errors.Code
use orbitproxy_go.Mcp.Errors.{command, dial, typed, new_report, wrap, Outcome, done, failed}
use orbitproxy_go.Mcp.SpawnConfig.{SpawnConfig}
use orbitproxy_go.Mcp.Payload.{ExecPayload, parse_exec_payload}
use orbitproxy_go.Mcp.Env.Missing.{env_file_missing_error}
use orbitproxy_go.Mcp.Env.File.{EnvFile, endpoint_env_file_ready}
use orbitproxy_go.Mcp.Discover.{
  Tool, ServerInfo, ListResult, Transport, Json, list_tools_via_transport,
}
use orbitproxy_go.Mcp.Preflight.{Machine, CommandConfig, err_of}
use orbitproxy_go.Mcp.Preflight.Command.{check_command}

pub record RunResult : Type 0 where
  pub tools : List Tool
  pub truncated : Bool
  pub server_name : Text
  pub server_version : Text
  pub resolved_path : Text

pub record RunOptions : Type 0 where
  pub payload : List ℕ
  pub timeout_seconds : ℤ
  pub endpoint_id : Text
  pub machine_dir : Text
  pub skip_protocol : Bool

-- `start` is NewStdioTransport, which gives a Transport that has shaken hands, and `local_http` is
-- ParseLocalPayload with NewHTTPTransport for a timeout.
pub record World : Type 0 where
  pub machine : Machine
  pub unmarshal : List ℕ → Option ExecPayload
  pub join : Text → Text → Text → Text
  pub read : Text → EnvFile
  pub json : Json
  pub start : SpawnConfig → Text → Text → Outcome (Transport × ServerInfo)
  pub local_http : List ℕ → ℕ → Outcome Transport

abbrev pub second : ℕ
second = 1_000_000_000

-- The timeout of a Run whose context has no deadline, and of its HTTP transport.
unfoldable pub run_timeout : ℤ → ℕ
run_timeout n = if non_positive n then 30 * second else pos_part n * second

abbrev pub command_config : SpawnConfig → CommandConfig
command_config cfg = record { command = cfg.command; args = cfg.args; work_dir = cfg.work_dir }

abbrev pub local_result : Text → RunResult
local_result path = record {
  tools = [];
  truncated = false;
  server_name = [];
  server_version = [];
  resolved_path = path;
}

abbrev pub listed_result : Text → ListResult → RunResult
listed_result path listed = record {
  tools = listed.tools;
  truncated = listed.truncated;
  server_name = listed.server.name;
  server_version = listed.server.version;
  resolved_path = path;
}

abbrev with_path : Text → Outcome ListResult → Outcome RunResult
with_path path (failed e) = failed e
with_path path (done listed) = done (listed_result path listed)

-- The listing, by a Transport that has shaken hands or not; `none` is the end of the fuel.
unfoldable pub list_on :
    World → ℕ → Text → Transport → Option ServerInfo → Option (Outcome RunResult)
unfolding list_tools_via_transport
list_on w fuel path transport ready = elim (list_tools_via_transport w.json transport fuel ready) [
  | none ↦ none
  | some found ↦ some (with_path path found)
]

unfoldable pub start_and_list :
    World → ℕ → RunOptions → SpawnConfig → Text → Option (Outcome RunResult)
unfolding list_on
start_and_list w fuel opts cfg path = elim (w.start cfg opts.endpoint_id opts.machine_dir) [
  | failed e ↦ some (failed e)
  | done (transport, server) ↦ list_on w fuel path transport (some server)
]

-- runExec; Err of a result is nil exactly if the result is OK.
unfoldable pub run_exec : World → ℕ → RunOptions → SpawnConfig → Option (Outcome RunResult)
unfolding check_command err_of endpoint_env_file_ready env_file_missing_error start_and_list
run_exec w fuel opts cfg =
    let checked = check_command w.machine (command_config cfg) in
    let ready = endpoint_env_file_ready w.join w.read opts.machine_dir opts.endpoint_id in
    elim (err_of checked) [
      | some e ↦ some (failed e)
      | none ↦
          if cfg.requires_env_file && not ready
          then some (failed (env_file_missing_error w.join opts.machine_dir opts.endpoint_id))
          else if opts.skip_protocol
          then some (done (local_result checked.resolved_path))
          else start_and_list w fuel opts cfg checked.resolved_path
    ]

unfoldable pub run_forward : World → ℕ → RunOptions → Option (Outcome RunResult)
unfolding list_on run_timeout wrap
run_forward w fuel opts =
    if opts.skip_protocol
    then some (done (local_result []))
    else elim (w.local_http opts.payload (run_timeout opts.timeout_seconds)) [
      | failed e ↦ some (failed (wrap dial Code.internal [] e))
      | done transport ↦ list_on w fuel [] transport none
    ]

-- Run
unfoldable pub run : World → ℕ → RunOptions → Option (Outcome RunResult)
unfolding parse_exec_payload run_exec run_forward
run w fuel opts =
    if length opts.payload == 0
    then some
        (failed (typed (new_report command Code.internal (codes "endpoint payload is empty"))))
    else elim (parse_exec_payload w.unmarshal opts.payload) [
      | some cfg ↦ run_exec w fuel opts cfg
      | none ↦ run_forward w fuel opts
    ]
