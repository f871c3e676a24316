-- ===== src/Mcp/Env/Build.antt =====
-- internal/mcp/mcpstdio/spawn.go: buildEnv, applyUserToolEnv and replaceEnvKey, and what
-- Spawn makes of their list. The process's own
-- environment and package userenv are parameters: `environ` and `lookup_env` (package os), and the
-- values `path`, `home` and `npm_prefix`, empty if there is none. A set of names is a list.
use orbitproxy_go.Prelude.{
  Bool, true, false, ◌&&◌, ◌||◌, Text, text_eq, codes, List, [], ◌∷◌, ◌++◌, Option, none, some,
  length, ltb, ◌==◌, if◌then◌else◌, has_prefix,
}
use orbitproxy_go.Mcp.Env.Merge.{key_of}

unfoldable pub is_in : Text → List Text → Bool
is_in name [] = false
is_in name (n ∷ names) = text_eq n name || is_in name names

-- KEY=VALUE
abbrev pub pair : Text → Text → Text
pair key val = key ++ b'=' ∷ val

-- The keys of the entries where IndexByte(kv, '=') > 0.
unfoldable pub explicit_keys : List Text → List Text
explicit_keys [] = []
explicit_keys (kv ∷ kvs) =
    let seen = explicit_keys kvs in elim (key_of kv) [ none ↦ seen | some key ↦ key ∷ seen ]

-- The result and the names that are set.
pub record Building : Type 0 where
  pub result : List Text
  pub seen : List Text

abbrev pub path_key : Text
path_key = codes "PATH"

abbrev pub home_key : Text
home_key = codes "HOME"

abbrev pub npm_key : Text
npm_key = codes "npm_config_prefix"

unfoldable pub append_pair : Text → Text → Building → Building
append_pair key val b = record { result = b.result ++ pair key val ∷ []; seen = key ∷ b.seen }

-- replaceEnvKey, from an entry on.
unfoldable pub replace_loop : Text → Text → Bool → List Text → List Text
replace_loop prefix val replaced [] = if replaced then [] else (prefix ++ val) ∷ []
replace_loop prefix val replaced (kv ∷ env) =
    let first = replace_loop prefix val true env in
    let other = replace_loop prefix val replaced env in
    if has_prefix kv prefix
    then (if replaced then other else (prefix ++ val) ∷ first)
    else kv ∷ other

unfoldable pub replace_env_key : List Text → Text → Text → List Text
replace_env_key env key val = replace_loop (key ++ b'=' ∷ []) val false env

-- The closure `ensureKey`, which leaves `seen` as it is.
unfoldable pub ensure_key : List Text → Text → Text → Building → Building
ensure_key passthrough key val b =
    if text_eq val []
    then b
    else if is_in key b.seen
    then b
    else if is_in key passthrough
    then b
    else record b { result = b.result ++ pair key val ∷ [] }

unfoldable pub replace_if : Text → Text → List Text → List Text
replace_if key val env = if text_eq val [] then env else replace_env_key env key val

module _ (environ : List Text) (lookup_env : Text → Option Text) (path home npm_prefix : Text) where
  -- One round of the loop over the white list.
  unfoldable pub pass_one : Text → Building → Building
  pass_one name b =
      if is_in name b.seen
      then b
      else if text_eq name path_key
      then (if text_eq path [] then b else append_pair path_key path b)
      else elim (lookup_env name) [ none ↦ b | some val ↦ append_pair name val b ]

  unfoldable pub pass_through : List Text → Building → Building
  pass_through [] b = b
  pass_through (name ∷ names) b = pass_through names (pass_one name b)

  unfoldable pub apply_user_tool_env : List Text → List Text
  apply_user_tool_env env =
      replace_if npm_key npm_prefix (replace_if home_key home (replace_if path_key path env))

  unfoldable pub build_env : List Text → List Text → List Text
  build_env explicit passthrough =
      if length explicit == 0 && length passthrough == 0
      then apply_user_tool_env environ
      else (ensure_key passthrough npm_key npm_prefix (
          ensure_key passthrough home_key home (
            ensure_key passthrough path_key path (
              pass_through passthrough
                (record { result = explicit; seen = explicit_keys explicit }))))).result

  -- The environment of the child in Spawn: an empty cmd.Env means the process's own.
  unfoldable pub spawn_env : List Text → List Text → List Text
  spawn_env explicit passthrough =
      let env = build_env explicit passthrough in if ltb 0 (length env) then env else environ
