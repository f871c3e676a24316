-- ===== src/Mcp/Env/File.antt =====
-- internal/mcp/mcpstdio/envfile.go: reading <machineDir>/env/<endpointID>.env and applying it. The
-- file system and filepath.Join are the parameters `read` and `join`; a file is its lines, as
-- bufio.Scanner gives them.
use orbitproxy_go.Prelude.{
  ℕ, Bool, false, ◌&&◌, ◌||◌, Text, text_eq, codes, List, [], ◌∷◌, ◌++◌, Option, none, some, length,
  ◌==◌, if◌then◌else◌, cut, trim_space, has_prefix, drop, take, ◌-◌, ltb, leb,
}
use orbitproxy_go.Mcp.SpawnConfig.{SpawnConfig}
use orbitproxy_go.Mcp.Env.Merge.{merge_env_pairs}

-- val[1:len(val)-1] for a value in quotes.
unfoldable pub inner : Text → Text
inner val = take (length val - 2) (drop 1 val)

-- val[len(val)-1] == q
unfoldable pub ends_with : ℕ → Text → Bool
ends_with q [] = false
ends_with q (c ∷ []) = c == q
ends_with q (c ∷ d ∷ s) = ends_with q (d ∷ s)

unfoldable pub unquote : Text → Text
unquote [] = []
unquote (q ∷ s) =
    if leb 1 (length s) && (q == b'"' || q == b'\'') && ends_with q (q ∷ s)
    then inner (q ∷ s)
    else q ∷ s

-- `export ` before the pair.
unfoldable pub strip_export : Text → Text
strip_export line = if has_prefix line (codes "export ") then trim_space (drop 7 line) else line

-- KEY = VAL
unfoldable pub parse_pair : Text → Option Text
parse_pair line = elim ((cut b'=' line).1) [
  | none ↦ none
  | some val ↦
      if text_eq (trim_space (cut b'=' line).0) []
      then none
      else some (trim_space (cut b'=' line).0 ++ b'=' ∷ unquote (trim_space val))
]

-- One round of the loop of readEnvFile.
unfoldable pub parse_line : Text → Option Text
parse_line text =
    let line = trim_space text in
    if text_eq line [] || has_prefix line (codes "#") then none else parse_pair (strip_export line)

unfoldable pub parse_lines : List Text → List Text
parse_lines [] = []
parse_lines (text ∷ texts) =
    let out = parse_lines texts in elim (parse_line text) [ none ↦ out | some kv ↦ kv ∷ out ]

-- What os.Open and the scanner give.
pub data EnvFile : Type 0 where
  not_exist open_error scan_error : EnvFile
  lines : List Text → EnvFile

-- readEnvFile; `none` is an error.
unfoldable pub read_env_file : EnvFile → Option (List Text)
read_env_file not_exist = some []
read_env_file open_error = none
read_env_file scan_error = none
read_env_file (lines texts) = some (parse_lines texts)

module _ (join : Text → Text → Text → Text) (read : Text → EnvFile) where
  unfoldable pub endpoint_env_file_path : Text → Text → Text
  endpoint_env_file_path machine_dir endpoint_id =
      let dir = trim_space machine_dir in
      let id = trim_space endpoint_id in
      if text_eq dir [] || text_eq id [] then [] else join dir (codes "env") (id ++ codes ".env")

  -- readEnvFile at that path, with no pairs where there is no path or an error.
  unfoldable pub pairs_at : Text → List Text
  pairs_at path =
      if text_eq path []
      then []
      else elim (read_env_file (read path)) [ none ↦ [] | some pairs ↦ pairs ]

  unfoldable pub endpoint_env_file_ready : Text → Text → Bool
  endpoint_env_file_ready machine_dir endpoint_id =
      ltb 0 (length (pairs_at (endpoint_env_file_path machine_dir endpoint_id)))

  -- `none` is a panic of mergeEnvPairs.
  unfoldable pub apply_endpoint_env_file : SpawnConfig → Text → Text → Option SpawnConfig
  apply_endpoint_env_file cfg machine_dir endpoint_id =
      let pairs = pairs_at (endpoint_env_file_path machine_dir endpoint_id) in
      if length pairs == 0 then some cfg else elim (merge_env_pairs cfg.env pairs) [
        | none ↦ none
        | some env ↦ some (record cfg { env = env })
      ]

-- spawn.go: WithPreflightEnv.
unfoldable pub with_preflight_env : SpawnConfig → Option SpawnConfig
with_preflight_env cfg =
    if length cfg.preflight_env == 0
    then some cfg
    else elim (merge_env_pairs cfg.env cfg.preflight_env) [
      | none ↦ none
      | some env ↦ some (record cfg { env = env })
    ]
