-- ===== src/Mcp/Preflight/Tests.antt =====
-- Checks on a machine with one program.
use orbitproxy_go.Prelude.{
  pos, ◌≡◌, ◌≢◌, ◌↔◌, refl, true, false, Text, text_eq, codes, trim_space, to_lower, has_prefix, [],
  ◌∷◌, none, some, if◌then◌else◌,
}
use orbitproxy_go.Prelude.Paths.{base, split, trim_suffix, has_suffix}
use orbitproxy_go.Control.Handlers.{preflight_result}
use orbitproxy_go.Mcp.Errors.Code
use orbitproxy_go.Mcp.Errors.{other, done, failed}
use orbitproxy_go.Mcp.SpawnConfig.{SpawnConfig}
use orbitproxy_go.Mcp.Env.File.{EnvFile}
use orbitproxy_go.Mcp.Userenv.{info, stat_error, found, not_found}
use orbitproxy_go.Mcp.Preflight.{
  Machine, CommandConfig, command_base, first_argument, npx_package_spec, uvx_package_spec,
  package_dir_name, err_of,
}
use orbitproxy_go.Mcp.Preflight.Command.{
  check_command, check_resolved, check_work_dir, check_packages,
}
use orbitproxy_go.Mcp.Preflight.Specs.{Spec, scoped, print, name_of, package_dir_name-print}
use orbitproxy_go.Mcp.Preflight.Ready.{Ready, accepted}
use orbitproxy_go.Mcp.Preflight.Accepted.{check_command-Ready}
use orbitproxy_go.Mcp.Preflight.Flags.{check_command-claims}
use orbitproxy_go.Mcp.Preflight.Run.{World, RunOptions, local_result, run_exec}
use orbitproxy_go.Mcp.Preflight.Checked.{Checked, run_exec-Checked}

-- `@scope/pkg@1.2`
abbrev spec : Spec
spec = scoped (codes "scope") b'p' (codes "kg") (codes "1.2")

spec_trimmed : trim_space (print spec) ≡ print spec
unfolding trim_space
spec_trimmed = refl

package_dir_name-print_example : package_dir_name (print spec) ≡ name_of spec
package_dir_name-print_example =
    package_dir_name-print spec
      ((refl, (refl, (refl, (refl, (refl, tt))))), (refl, (refl, (refl, tt)))) spec_trimmed

abbrev program : Text
program = codes "/usr/bin/srv"

abbrev machine : Machine
machine = record {
  stat = λ path.
      if text_eq path program
      then info (record { is_dir = false; perm = 0o755 })
      else stat_error (codes "no such file");
  look_path = λ cmd. if text_eq cmd (codes "srv") then found program else not_found;
  npm_extra = [];
  npm_root = codes "/usr/lib/node_modules";
  home = codes "/root";
  path = codes "/usr/bin";
  getwd = none;
  glob = λ pattern. none;
  environ = [];
  uv_tool_dir = [];
  tool_dir = λ uv env. none;
}

abbrev srv : CommandConfig
srv = record { command = codes "srv"; args = []; work_dir = [] }

check_command-Ready_example :
    (check_command machine srv ≡ accepted program) ↔ Ready machine srv program
check_command-Ready_example = check_command-Ready machine srv program

abbrev npx : CommandConfig
npx = record { command = codes "npx"; args = codes "-y" ∷ codes "pkg" ∷ []; work_dir = [] }

npx_spec : npx_package_spec npx.command npx.args ≡ codes "pkg"
unfolding npx_package_spec first_argument command_base base split trim_suffix has_suffix has_prefix
    to_lower text_eq
npx_spec = refl

npx_named : npx.command ≢ []
npx_named h = cc h

npx_asks : npx_package_spec npx.command npx.args ≢ []
npx_asks h = cc (h, npx_spec)

npx_lost : machine.look_path npx.command ≡ not_found
unfolding text_eq
npx_lost = refl

check_command-claims_example :
    let pf = preflight_result (codes "r") (codes "e") (check_command machine npx) in
    (pf.error_code ≡ Code.package_not_installed)
    × (pf.command_found ≡ true)
    × (pf.command_executable ≡ true)
check_command-claims_example =
    check_command-claims machine npx (codes "r") (codes "e") npx_named npx_lost npx_asks

abbrev srv_config : SpawnConfig
srv_config = record {
  command = codes "srv";
  args = [];
  work_dir = [];
  env = [];
  env_passthrough = [];
  family_key = [];
  requires_env_file = false;
  preflight_env = [];
}

abbrev world : World
world = record {
  machine = machine;
  unmarshal = λ raw. none;
  join = λ a b c. a;
  read = λ path. EnvFile.not_exist;
  json = record {
    text = record { parse = λ s. none; print = λ v. [] };
    decode_init = λ s. none;
    decode_tools = λ s. none;
  };
  start = λ cfg id dir. failed (other []);
  local_http = λ raw timeout. failed (other []);
}

abbrev options : RunOptions
options = record {
  payload = codes "{}";
  timeout_seconds = pos 5;
  endpoint_id = codes "e";
  machine_dir = [];
  skip_protocol = true;
}

srv_run : run_exec world 101 options srv_config ≡ some (done (local_result program))
unfolding run_exec err_of check_command check_resolved check_work_dir check_packages
    npx_package_spec uvx_package_spec command_base base split trim_suffix has_suffix has_prefix
    to_lower text_eq
srv_run = refl

run_exec-Checked_example : Checked world 101 options srv_config (local_result program)
run_exec-Checked_example = run_exec-Checked world 101 options srv_config srv_run
