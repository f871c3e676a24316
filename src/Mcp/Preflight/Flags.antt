-- ===== src/Mcp/Preflight/Flags.antt =====
-- internal/mcp/preflight/command.go and internal/gateway_ctl/control_handlers.go: the flags that the
-- control plane gets of a check.
use orbitproxy_go.Prelude.{
  ◌≡◌, ◌≢◌, refl, inl, inr, true, false, Text, text_eq, text_eq_iff, [], arith, Bool-cases,
}
use orbitproxy_go.Control.Handlers.{preflight_flags, preflight_result}
use orbitproxy_go.Mcp.Errors.Code
use orbitproxy_go.Mcp.Userenv.{not_found}
use orbitproxy_go.Mcp.Preflight.{Machine, CommandConfig, npx_package_spec, package_check_message}
use orbitproxy_go.Mcp.Preflight.Command.{refused, not_looked_up, check_command}

not_empty : (s : Text) → s ≢ [] → text_eq s [] ≡ false
not_empty s full = elim (Bool-cases (text_eq s [])) [
  | inl empty ↦ absurd (full ((text_eq_iff s []).0 empty))
  | inr other ↦ other
]

check_command-missing_npx :
    (m : Machine) (cfg : CommandConfig)
    → cfg.command ≢ []
    → m.look_path cfg.command ≡ not_found
    → npx_package_spec cfg.command cfg.args ≢ []
    → check_command m cfg
      ≡ refused Code.package_not_installed
          (package_check_message (npx_package_spec cfg.command cfg.args))
          []
unfolding check_command not_looked_up
check_command-missing_npx m cfg named lost spec = ground (
  arith,
  not_empty cfg.command named,
  lost,
  not_empty (npx_package_spec cfg.command cfg.args) spec,
)

-- A command npx with a package that is not on the PATH is reported as found and executable: the check
-- says that the package is missing, whatever the directories hold, and the flags of that code claim
-- the command.
pub check_command-claims :
    (m : Machine) (cfg : CommandConfig) (request_id endpoint_id : Text)
    → cfg.command ≢ []
    → m.look_path cfg.command ≡ not_found
    → npx_package_spec cfg.command cfg.args ≢ []
    → let pf = preflight_result request_id endpoint_id (check_command m cfg) in
      (pf.error_code ≡ Code.package_not_installed)
      × (pf.command_found ≡ true)
      × (pf.command_executable ≡ true)
unfolding preflight_result preflight_flags text_eq
check_command-claims m cfg request_id endpoint_id named lost spec =
    rw (check_command-missing_npx m cfg named lost spec) (refl, refl, refl)
