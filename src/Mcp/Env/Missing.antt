-- ===== src/Mcp/Env/Missing.antt =====
-- internal/mcp/mcpstdio/envfile.go: EnvFileMissingError.
use orbitproxy_go.Prelude.{Text, text_eq, codes, [], ◌++◌, if◌then◌else◌}
use orbitproxy_go.Mcp.Errors.Code
use orbitproxy_go.Mcp.Errors.{prerequisite, Err, typed, new_report}
use orbitproxy_go.Mcp.Env.File.{EnvFile, endpoint_env_file_path}

unfoldable pub env_file_missing_error : (Text → Text → Text → Text) → Text → Text → Err
unfolding endpoint_env_file_path
env_file_missing_error join machine_dir endpoint_id =
    let path = endpoint_env_file_path join (λ p. EnvFile.not_exist) machine_dir endpoint_id in
    let shown = if text_eq path [] then codes "env/<endpointId>.env" else path in
    typed (
      new_report prerequisite Code.env_file_missing
        (codes "environment variable file not found: " ++ shown))
