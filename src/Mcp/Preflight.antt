-- ===== src/Mcp/Preflight.antt =====
-- internal/mcp/preflight/command.go: whether the command of an endpoint can be started, on Unix. The
-- file system, the home directory, the search for a command and what programs print are the record
-- Machine.
pub mod Command
pub mod Specs
pub mod Dirs
pub mod Ready
pub mod Accepted
pub mod Flags
pub mod Run
pub mod Checked
mod Tests
use orbitproxy_go.Prelude.{
  ℕ, suc, ◌+◌, Bool, true, false, ◌&&◌, ◌||◌, not, ltb, Text, text_eq, codes, has_prefix, to_lower,
  trim_space, List, [], ◌∷◌, ◌++◌, drop, take, Option, none, some, if◌then◌else◌,
}
use orbitproxy_go.Prelude.Paths.{join_path, dir, base, index, last_index, trim_suffix}
use orbitproxy_go.Control.Handlers.{CommandResult}
use orbitproxy_go.Mcp.Errors.Code
use orbitproxy_go.Mcp.Errors.{Stage, command, packages, spawn, Err, typed, new_report}
use orbitproxy_go.Mcp.Userenv.{
  Info, Stat, info, stat_error, Look, found, not_found, look_error, any_execute, file_exists,
  replace_pairs,
}

-- `look_path`, `npm_root`, `npm_extra`, `home` and `path` are of package userenv; `glob` is
-- filepath.Glob of the directories of nvm, and `tool_dir` runs `uv tool dir` in an environment.
pub record Machine : Type 0 where
  pub stat : Text → Stat
  pub look_path : Text → Look
  pub npm_extra : List Text
  pub npm_root : Text
  pub home : Text
  pub path : Text
  pub getwd : Option Text
  pub glob : Text → Option (List Text)
  pub environ : List Text
  pub uv_tool_dir : Text
  pub tool_dir : Text → List Text → Option Text

pub record CommandConfig : Type 0 where
  pub command : Text
  pub args : List Text
  pub work_dir : Text

-- Err of a CommandResult; `none` is nil.
unfoldable pub err_of : CommandResult → Option Err
err_of r =
    let stage : Stage =
      if text_eq r.error_code Code.package_not_installed
      then packages
      else if text_eq r.error_code Code.spawn_failed
      then spawn
      else command in
    if r.is_ok then none else some (typed (new_report stage r.error_code r.error_message))

-- commandBase
unfoldable pub command_base : Text → Text
command_base cmd = trim_suffix (trim_suffix (to_lower (base cmd)) (codes ".cmd")) (codes ".exe")

-- The loop over the arguments: the first that is no option.
unfoldable pub first_argument : List Text → Text
first_argument [] = []
first_argument (arg ∷ args) =
    let rest = first_argument args in
    if text_eq arg [] || has_prefix arg (codes "-") then rest else arg

unfoldable pub npx_package_spec : Text → List Text → Text
npx_package_spec cmd args =
    if not (text_eq (command_base cmd) (codes "npx")) then [] else first_argument args

unfoldable pub uvx_package_spec : Text → List Text → Text
uvx_package_spec cmd args =
    if not (text_eq (command_base cmd) (codes "uvx")) then [] else first_argument args

-- s[:at] for the last `@`, where it is not the first character.
abbrev pub before_version : Text → Text
before_version s = elim (last_index b'@' s) [
  | none ↦ s
  | some at ↦ if ltb 0 at then take at s else s
]

-- A name with a scope, whose slash stands at `slash`.
abbrev pub before_scoped_version : Text → ℕ → Text
before_scoped_version spec slash = elim (last_index b'@' (drop (slash + 1) spec)) [
  | none ↦ spec
  | some at ↦ if ltb 0 at then take (slash + 1 + at) spec else spec
]

-- packageDirName after TrimSpace.
unfoldable pub without_version : Text → Text
without_version spec =
    if text_eq spec []
    then spec
    else if has_prefix spec (codes "@")
    then elim (index b'/' spec) [ none ↦ spec | some slash ↦ before_scoped_version spec slash ]
    else before_version spec

unfoldable pub package_dir_name : Text → Text
unfolding without_version
package_dir_name spec = without_version (trim_space spec)

unfoldable pub package_check_message : Text → Text
package_check_message spec = codes "MCP package not installed locally: " ++ spec

-- npmPackagePresent
unfoldable pub npm_package_present : Machine → Text → Bool
unfolding file_exists
npm_package_present m path = file_exists m.stat path

-- The loop over `dirs` that looks for a directory.
abbrev pub holds : Text → List Text → Bool
holds dir [] = false
holds dir (d ∷ ds) = let rest = holds dir ds in if text_eq d dir then true else rest

-- The closure `add` of npmPackageCandidateDirs.
unfoldable pub add_dir : List Text → Text → List Text
add_dir dirs given =
    let dir = trim_space given in
    if text_eq dir [] then dirs else if holds dir dirs then dirs else dirs ++ dir ∷ []

unfoldable pub add_dirs : List Text → List Text → List Text
add_dirs dirs [] = dirs
add_dirs dirs (d ∷ ds) = add_dirs (add_dir dirs d) ds

-- What npmPackageCandidateDirs adds, in its order.
unfoldable pub npm_dirs : Machine → Text → Text → List Text
npm_dirs m npx_path work_dir =
    let of_npx =
      if not (text_eq npx_path [])
      then join_path (dir (dir npx_path) ∷ codes "lib" ∷ codes "node_modules" ∷ []) ∷ []
      else [] in
    let of_work_dir =
      if not (text_eq work_dir [])
      then join_path (work_dir ∷ codes "node_modules" ∷ []) ∷ []
      else [] in
    let of_cwd : List Text = elim m.getwd [
      | none ↦ []
      | some cwd ↦
          if text_eq cwd work_dir then [] else join_path (cwd ∷ codes "node_modules" ∷ []) ∷ []
    ] in
    let pattern = join_path (
      m.home
      ∷ codes ".nvm"
      ∷ codes "versions"
      ∷ codes "node"
      ∷ codes "*"
      ∷ codes "lib"
      ∷ codes "node_modules"
      ∷ []) in
    let of_nvm : List Text = elim (m.glob pattern) [ none ↦ [] | some matches ↦ matches ] in
    let of_home =
      if not (text_eq m.home [])
      then join_path (m.home ∷ codes ".npm-global" ∷ codes "lib" ∷ codes "node_modules" ∷ [])
        ∷ join_path (m.home ∷ codes ".local" ∷ codes "lib" ∷ codes "node_modules" ∷ [])
        ∷ of_nvm
      else [] in
    m.npm_extra ++ (m.npm_root ∷ (of_npx ++ (of_work_dir ++ (of_cwd ++ of_home))))

unfoldable pub npm_package_candidate_dirs : Machine → Text → Text → List Text
npm_package_candidate_dirs m npx_path work_dir = add_dirs [] (npm_dirs m npx_path work_dir)

-- The loop over the directories.
unfoldable pub any_package : Machine → Text → List Text → Bool
any_package m name [] = false
any_package m name (d ∷ ds) =
    let rest = any_package m name ds in
    if npm_package_present m (join_path (d ∷ name ∷ codes "package.json" ∷ [])) then true else rest

unfoldable pub npm_package_installed : Machine → Text → Text → Text → Text
npm_package_installed m spec npx_path work_dir =
    let name = package_dir_name spec in
    if text_eq name []
    then Code.package_not_installed
    else if any_package m name (npm_package_candidate_dirs m npx_path work_dir)
    then []
    else Code.package_not_installed
