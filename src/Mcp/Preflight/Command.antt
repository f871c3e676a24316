-- ===== src/Mcp/Preflight/Command.antt =====
-- internal/mcp/preflight/command.go: the tools of uv, and CheckCommand.
use orbitproxy_go.Prelude.{
  ℕ, Bool, true, false, not, ◌&&◌, ltb, Text, text_eq, codes, trim_space, List, [], ◌∷◌, ◌++◌, take,
  Option, none, some, suc, has_prefix, if◌then◌else◌,
}
use orbitproxy_go.Prelude.Paths.{join_path}
use orbitproxy_go.Control.Handlers.{CommandResult}
use orbitproxy_go.Mcp.Errors.Code
use orbitproxy_go.Mcp.Userenv.{
  info, stat_error, found, not_found, look_error, any_execute, replace_pairs,
}
use orbitproxy_go.Mcp.Preflight.{
  Machine, CommandConfig, npx_package_spec, uvx_package_spec, before_version, package_check_message,
  npm_package_installed,
}

-- strings.Index of `==`.
unfoldable pub index_of_equal : Text → Option ℕ
unfolding has_prefix
index_of_equal [] = none
index_of_equal (c ∷ s) =
    let rest = index_of_equal s in
    if has_prefix (c ∷ s) (codes "==")
    then some 0
    else elim rest [ none ↦ none | some i ↦ some (suc i) ]

unfoldable pub uv_tool_name : Text → Text
uv_tool_name given =
    let spec = trim_space given in
    if text_eq spec [] then [] else elim (index_of_equal spec) [
      | none ↦ before_version spec
      | some i ↦ if ltb 0 i then take i spec else before_version spec
    ]

-- replaceEnvValue
unfoldable pub replace_env_value : List Text → Text → Text → List Text
unfolding replace_pairs
replace_env_value env key val = replace_pairs (key ++ codes "=") val false env

unfoldable pub query_uv_tool_dir : Machine → Text
query_uv_tool_dir m = elim (m.look_path (codes "uv")) [
  | not_found ↦ []
  | look_error e ↦ []
  | found uv ↦
      let env =
        if not (text_eq m.path [])
        then replace_env_value m.environ (codes "PATH") m.path
        else m.environ in
      let env' =
        if not (text_eq m.home []) then replace_env_value env (codes "HOME") m.home else env in
      elim (m.tool_dir uv env') [ none ↦ [] | some out ↦ trim_space out ]
]

abbrev unless_empty : Text → List Text
unless_empty given = let dir = trim_space given in if text_eq dir [] then [] else dir ∷ []

unfoldable pub uv_tool_candidate_dirs : Machine → List Text
unfolding query_uv_tool_dir
uv_tool_candidate_dirs m =
    let of_home =
      if not (text_eq m.home [])
      then unless_empty
          (join_path (m.home ∷ codes ".local" ∷ codes "share" ∷ codes "uv" ∷ codes "tools" ∷ []))
      else [] in
    unless_empty m.uv_tool_dir ++ (unless_empty (query_uv_tool_dir m) ++ of_home)

abbrev pub is_directory : Machine → Text → Bool
is_directory m path = elim (m.stat path) [ stat_error e ↦ false | info i ↦ i.is_dir ]

-- The loop over the directories.
unfoldable pub any_tool : Machine → Text → List Text → Bool
any_tool m name [] = false
any_tool m name (d ∷ ds) =
    let rest = any_tool m name ds in
    if is_directory m (join_path (d ∷ name ∷ [])) then true else rest

unfoldable pub uv_tool_installed : Machine → Text → Text
uv_tool_installed m spec =
    let name = uv_tool_name spec in
    if text_eq name []
    then Code.package_not_installed
    else if any_tool m name (uv_tool_candidate_dirs m)
    then []
    else Code.package_not_installed

abbrev pub refused : Text → Text → Text → CommandResult
refused code message path = record {
  is_ok = false;
  error_code = code;
  error_message = message;
  resolved_path = path;
}

-- CheckCommand, when LookPath has failed with the text of an error, or with ErrNotFound.
unfoldable pub not_looked_up : CommandConfig → Option Text → CommandResult
not_looked_up cfg e =
    let message : Text = elim e [
      | none ↦ codes "command not found in PATH: " ++ cfg.command
      | some text ↦ text
    ] in
    let pkg = npx_package_spec cfg.command cfg.args in
    if not (text_eq pkg [])
    then refused Code.package_not_installed (package_check_message pkg) []
    else refused Code.command_not_found message []

-- The packages of npx and uvx, which CheckCommand looks for last.
unfoldable pub check_packages : Machine → CommandConfig → Text → CommandResult
check_packages m cfg path =
    let npx = npx_package_spec cfg.command cfg.args in
    let npm_code = npm_package_installed m npx path cfg.work_dir in
    let uvx = uvx_package_spec cfg.command cfg.args in
    let uv_code = uv_tool_installed m uvx in
    if not (text_eq npx []) && not (text_eq npm_code [])
    then refused npm_code (package_check_message npx) path
    else if not (text_eq uvx []) && not (text_eq uv_code [])
    then refused uv_code (package_check_message uvx) path
    else record { is_ok = true; error_code = []; error_message = []; resolved_path = path }

unfoldable pub check_work_dir : Machine → CommandConfig → Text → CommandResult
check_work_dir m cfg path =
    if not (text_eq cfg.work_dir [])
    then elim (m.stat cfg.work_dir) [
      | stat_error e ↦
          refused Code.spawn_failed (codes "work directory does not exist: " ++ cfg.work_dir) path
      | info i ↦
          if not i.is_dir
          then refused Code.spawn_failed
              (codes "work directory path is not a directory: " ++ cfg.work_dir) path
          else check_packages m cfg path
    ]
    else check_packages m cfg path

unfoldable pub check_resolved : Machine → CommandConfig → Text → CommandResult
check_resolved m cfg path = elim (m.stat path) [
  | stat_error e ↦ refused Code.command_not_executable (codes "cannot stat command: " ++ e) []
  | info i ↦
      if i.is_dir
      then refused Code.command_not_executable (codes "command path is a directory: " ++ path) []
      else if not (any_execute i.perm)
      then refused Code.command_not_executable (codes "command not executable: " ++ path) []
      else check_work_dir m cfg path
]

unfoldable pub check_command : Machine → CommandConfig → CommandResult
check_command m cfg =
    if text_eq cfg.command []
    then refused Code.command_not_found (codes "command is empty") []
    else elim (m.look_path cfg.command) [
      | not_found ↦ not_looked_up cfg none
      | look_error e ↦ not_looked_up cfg (some e)
      | found path ↦ check_resolved m cfg path
    ]
