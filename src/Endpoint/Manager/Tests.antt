-- ===== src/Endpoint/Manager/Tests.antt =====
-- Runs of the manager.
use orbitproxy_go.Prelude.{
  ℕ, refl, Bool, true, false, text_eq, codes, List, [], ◌∷◌, Option, none, some, pos, text_Eq,
}
use orbitproxy_go.Wire.Message.{NewEndpoint, StartWorkConn}
use orbitproxy_go.Mcp.Payload.{ExecPayload}
use orbitproxy_go.Mcp.Pool.{PoolConfig, new_pool}
use orbitproxy_go.Endpoint.Delivery.{LocalServicePayload}
use orbitproxy_go.Mcp.Pool
use orbitproxy_go.Endpoint.Manager.{new_manager, ensure_exec_bridge}
use orbitproxy_go.Endpoint.Manager.Synced.{Synced}
use orbitproxy_go.Endpoint.Manager.Follows.{
  Event, new_endpoint, close_endpoint, follow, latest, follow-latest,
}

abbrev unmarshal : List ℕ → LocalServicePayload × Bool
unmarshal raw = (record { local_addr = []; delivery = codes "exec"; command = codes "npx" }, true)

abbrev unmarshal_exec : List ℕ → Option ExecPayload
unmarshal_exec raw = some (record {
  delivery = codes "exec";
  command = codes "npx";
  args = [];
  work_dir = [];
  env_passthrough = [];
  family_key = [];
  requires_env_file = false;
  preflight_env = [];
})

abbrev installed : NewEndpoint
installed = record {
  endpoint_id = codes "ep";
  category = codes "mcp";
  protocol = codes "http";
  local_service_payload = codes "{}";
  health_enabled = false;
  health_interval_seconds = pos 0;
  health_timeout_seconds = pos 0;
  health_max_failed = pos 0;
  proxies = [];
  discover_tools = none;
  error = [];
}

abbrev pool_config : PoolConfig
pool_config = record {
  max_sessions_per_endpoint = pos 8;
  max_global_processes = pos 32;
  idle_timeout = pos 0;
  pid_file = [];
  machine_dir = [];
}

-- Installed, removed, and installed again; the last message comes first.
abbrev events : List Event
events =
    new_endpoint installed
    ∷ close_endpoint (record { endpoint_id = codes "ep" })
    ∷ new_endpoint installed
    ∷ []

follow-latest_example :
    Synced unmarshal_exec
      (codes "ep")
      (latest unmarshal unmarshal_exec (codes "ep") events)
      (follow unmarshal unmarshal_exec events (ensure_exec_bridge pool_config new_manager))
unfolding text_eq
follow-latest_example = follow-latest unmarshal unmarshal_exec pool_config (codes "ep") events refl

abbrev work : StartWorkConn
work = record { endpoint_id = codes "ep"; route_version = []; source_addr = []; error = [] }
