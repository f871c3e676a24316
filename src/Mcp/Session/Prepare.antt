-- ===== src/Mcp/Session/Prepare.antt =====
-- internal/mcp/mcpstdio/session.go: NewSession up to Spawn.
use orbitproxy_go.Prelude.{
  ℤ, pos, non_positive, ◌*◌, not, ◌&&◌, Text, Option, none, some, if◌then◌else◌,
}
use orbitproxy_go.Mcp.SpawnConfig.{SessionConfig}
use orbitproxy_go.Mcp.Errors.{Outcome, done, failed}
use orbitproxy_go.Mcp.Env.File.{EnvFile, endpoint_env_file_ready, apply_endpoint_env_file}
use orbitproxy_go.Mcp.Env.Missing.{env_file_missing_error}

abbrev half_minute : ℤ
half_minute = pos (30 * 1_000_000_000)

-- The two timeouts, where none is set.
unfoldable pub with_timeouts : SessionConfig → SessionConfig
with_timeouts cfg = record cfg {
  handshake_timeout =
      if non_positive cfg.handshake_timeout then half_minute else cfg.handshake_timeout;
  request_timeout = if non_positive cfg.request_timeout then half_minute else cfg.request_timeout;
}

-- The configuration to spawn with; `none` is a panic of the merge.
unfoldable pub prepare_session :
    (Text → Text → Text → Text) → (Text → EnvFile) → SessionConfig → Option (Outcome SessionConfig)
unfolding with_timeouts endpoint_env_file_ready apply_endpoint_env_file env_file_missing_error
prepare_session join read given =
    let cfg = with_timeouts given in
    if cfg.spawn.requires_env_file
      && not (endpoint_env_file_ready join read cfg.machine_dir cfg.endpoint_id)
    then some (failed (env_file_missing_error join cfg.machine_dir cfg.endpoint_id))
    else elim (apply_endpoint_env_file join read cfg.spawn cfg.machine_dir cfg.endpoint_id) [
      | none ↦ none
      | some spawn ↦ some (done (record cfg { spawn = spawn }))
    ]
