-- ===== src/Mcp/SpawnConfig.antt =====
-- internal/mcp/mcpstdio: SpawnConfig (spawn.go), SessionConfig (session.go), and when a change of the
-- former calls for new processes (pool.go). Durations are numbers of nanoseconds.
use orbitproxy_go.Prelude.{
  ℤ, Bool, true, false, Text, text_eq, List, ◌∷◌, length, ◌==◌, not, if◌then◌else◌,
}

pub record SpawnConfig : Type 0 where
  pub command : Text
  pub args : List Text
  pub work_dir : Text
  pub env : List Text
  pub env_passthrough : List Text
  pub family_key : Text
  pub requires_env_file : Bool
  pub preflight_env : List Text

pub record SessionConfig : Type 0 where
  pub spawn : SpawnConfig
  pub handshake_timeout : ℤ
  pub request_timeout : ℤ
  pub endpoint_id : Text
  pub machine_dir : Text
  pub pid_file : Text

-- The loop `for i := range a` that compares two slices of one length.
unfoldable pub any_differs : List Text → List Text → Bool
any_differs (x ∷ xs) (y ∷ ys) = if text_eq x y then any_differs xs ys else true
any_differs xs ys = false

unfoldable pub config_changed : SpawnConfig → SpawnConfig → Bool
config_changed a b =
    if not (text_eq a.command b.command)
    then true
    else if not (text_eq a.work_dir b.work_dir)
    then true
    else if not (length a.args == length b.args)
    then true
    else if any_differs a.args b.args
    then true
    else if not (length a.env == length b.env)
    then true
    else any_differs a.env b.env
