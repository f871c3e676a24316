-- ===== src/Mcp/Userenv.antt =====
-- internal/userenv: the user's home directory, the search of a command on a PATH, and the directories
-- of npm, on Unix. The environment, the file system and what programs print are parameters. The PATH
-- that captureToolchainPATH finds is one of them.
pub mod Replaced
mod Tests
use orbitproxy_go.Prelude.{
  ℕ, ◌/◌, ◌%◌, ◌==◌, Bool, true, false, ◌||◌, not, Text, text_eq, codes, contains, has_prefix,
  trim_space, List, [], ◌∷◌, ◌++◌, Option, none, some, if◌then◌else◌,
}
use orbitproxy_go.Prelude.Paths.{split, join_path, dir, base, has_suffix}

-- os.FileInfo
pub record Info : Type 0 where
  pub is_dir : Bool
  pub perm : ℕ

-- What os.Stat gives: a FileInfo, or the text of its error.
pub data Stat : Type 0 where
  info : Info → Stat
  stat_error : Text → Stat

-- A path, exec.ErrNotFound, or an error with another text.
pub data Look : Type 0 where
  found : Text → Look
  not_found : Look
  look_error : Text → Look

-- m&0o111 != 0
abbrev pub any_execute : ℕ → Bool
any_execute m = m % 2 == 1 || m / 8 % 2 == 1 || m / 64 % 2 == 1

unfoldable pub is_executable : (Text → Stat) → Text → Bool
is_executable stat file = elim (stat file) [
  | stat_error e ↦ false
  | info i ↦ if i.is_dir then false else any_execute i.perm
]

-- The loop of lookPath over the directories of the PATH.
unfoldable pub search : (Text → Stat) → Text → List Text → Look
search stat file [] = not_found
search stat file (d ∷ ds) =
    let rest = search stat file ds in
    let candidate = join_path ((if text_eq d [] then codes "." else d) ∷ file ∷ []) in
    if is_executable stat candidate then found candidate else rest

-- filepath.SplitList
unfoldable pub split_list : Text → List Text
split_list path = if text_eq path [] then [] else split b':' path

-- LookPath. exec.LookPath is the parameter `exec`.
unfoldable pub look_path : (Text → Stat) → (Text → Look) → (path_env file : Text) → Look
look_path stat exec path_env file =
    if text_eq file []
    then not_found
    else if contains file (codes "/")
    then exec file
    else search stat file (split_list path_env)

-- Home, by $HOME, os.UserHomeDir and the HomeDir of user.Current.
unfoldable pub home : Text → Option Text → Option Text → Text
home env user_home current =
    let of_user : Text = elim current [ none ↦ [] | some h ↦ trim_space h ] in
    let of_os : Text = elim user_home [
      | none ↦ of_user
      | some h ↦ if text_eq (trim_space h) [] then of_user else trim_space h
    ] in
    if text_eq (trim_space env) [] then of_os else trim_space env

-- The $HOME that EnsureHome leaves.
unfoldable pub ensure_home : Text → Option Text → Option Text → Text
unfolding home
ensure_home env user_home current =
    if not (text_eq (trim_space env) [])
    then env
    else if not (text_eq (home env user_home current) [])
    then home env user_home current
    else env

-- PATH: what was captured, or else the PATH of the process.
unfoldable pub path_of : Text → Text → Text
path_of captured own = if text_eq captured [] then own else captured

unfoldable pub extra_npm_roots : Text → List Text
extra_npm_roots env = if text_eq (trim_space env) [] then [] else trim_space env ∷ []

unfoldable pub npm_prefix_from_root : Text → Text
npm_prefix_from_root given =
    let root = trim_space given in
    if text_eq root []
    then []
    else if has_suffix root (codes "/lib/node_modules")
    then dir (dir root)
    else if text_eq (base root) (codes "node_modules")
    then dir root
    else []

-- The loop of replaceEnvKey and of replaceEnvValue; `replaced` is whether the pair stands in `out`.
unfoldable pub replace_pairs : Text → Text → Bool → List Text → List Text
replace_pairs prefix val replaced [] = if not replaced then (prefix ++ val) ∷ [] else []
replace_pairs prefix val replaced (kv ∷ env) =
    let kept = kv ∷ replace_pairs prefix val replaced env in
    let dropped = replace_pairs prefix val true env in
    if has_prefix kv prefix
    then if not replaced then (prefix ++ val) ∷ dropped else dropped
    else kept

unfoldable pub replace_env_key : List Text → Text → Text → List Text
replace_env_key env key val =
    if text_eq val [] then env else replace_pairs (key ++ codes "=") val false env

-- withHomeAndPath
unfoldable pub with_home_and_path : Text → Text → List Text → List Text
with_home_and_path home path env =
    let env' = replace_env_key env (codes "PATH") path in
    if not (text_eq home []) then replace_env_key env' (codes "HOME") home else env'

-- firstExistingFile, and fileExists
unfoldable pub file_exists : (Text → Stat) → Text → Bool
file_exists stat path = elim (stat path) [ stat_error e ↦ false | info i ↦ not i.is_dir ]

unfoldable pub first_existing_file : (Text → Stat) → List Text → Text
first_existing_file stat [] = []
first_existing_file stat (path ∷ paths) =
    let rest = first_existing_file stat paths in if file_exists stat path then path else rest
