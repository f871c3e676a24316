-- ===== src/Mcp/Payload.antt =====
-- internal/mcp/mcpstdio: ParseExecPayload and envPairsFromMap (bridge.go), and the arguments of a
-- filesystem server (filesystem_root.go). json.Unmarshal is the parameter `unmarshal`; `none` is its
-- error.
use orbitproxy_go.Prelude.{
  ℕ, ◌+◌, Bool, true, false, not, ◌&&◌, ◌||◌, Text, text_eq, codes, List, [], ◌∷◌, ◌++◌, Option,
  none, some, Dict, ltb, leb, ◌==◌, if◌then◌else◌, trim_space, to_lower, has_prefix, contains,
}
use orbitproxy_go.Mcp.SpawnConfig.{SpawnConfig}

-- What simple case folding makes an ASCII letter: the capitals, the long s and the Kelvin sign.
abbrev fold_case : ℕ → ℕ
fold_case c =
    if leb 65 c && leb c 90
    then c + 32
    else if c == 0x17F
    then 115
    else if c == 0x212A
    then 107
    else c

abbrev fold_cases : Text → Text
fold_cases [] = []
fold_cases (c ∷ s) = fold_case c ∷ fold_cases s

abbrev pub filesystem_open_root : Text
filesystem_open_root = codes "/"

unfoldable pub is_filesystem_package_spec : Text → Bool
is_filesystem_package_spec arg =
    let lower = to_lower (trim_space arg) in
    contains lower (codes "server-filesystem") || text_eq lower (codes "mcp-server-filesystem")

-- The loop over the arguments.
unfoldable pub any_filesystem : List Text → Bool
any_filesystem [] = false
any_filesystem (arg ∷ args) =
    let rest = any_filesystem args in if is_filesystem_package_spec arg then true else rest

unfoldable pub is_filesystem_exec : Text → List Text → Bool
is_filesystem_exec catalog_key args =
    if text_eq (fold_cases (trim_space catalog_key)) (codes "filesystem")
    then true
    else any_filesystem args

unfoldable pub kept_args : List Text → List Text
kept_args [] = []
kept_args (arg ∷ args) =
    let rest = kept_args args in
    if text_eq (trim_space arg) []
    then rest
    else if has_prefix (trim_space arg) (codes "-") || is_filesystem_package_spec (trim_space arg)
    then trim_space arg ∷ rest
    else rest

unfoldable pub filesystem_open_root_args : List Text → List Text
filesystem_open_root_args args = kept_args args ++ filesystem_open_root ∷ []

unfoldable pub apply_filesystem_open_root : Text → List Text → List Text
apply_filesystem_open_root catalog_key args =
    if not (is_filesystem_exec catalog_key args) then args else filesystem_open_root_args args

-- s <= t as Go compares strings.
abbrev text_leb : Text → Text → Bool
text_leb [] t = true
text_leb (c ∷ s) [] = false
text_leb (c ∷ s) (d ∷ t) = let rest = text_leb s t in if c == d then rest else ltb c d

abbrev insert_sorted : Text × Text → Dict Text → Dict Text
insert_sorted kv [] = kv ∷ []
insert_sorted kv (x ∷ xs) =
    let rest = insert_sorted kv xs in if text_leb kv.0 x.0 then kv ∷ x ∷ xs else x ∷ rest

-- The entries with a key that is not empty, in the order of sort.Strings on the keys.
unfoldable pub sorted_entries : Dict Text → Dict Text
sorted_entries [] = []
sorted_entries (kv ∷ m) =
    let rest = sorted_entries m in if text_eq kv.0 [] then rest else insert_sorted kv rest

abbrev pairs_of : Dict Text → List Text
pairs_of [] = []
pairs_of ((key, val) ∷ m) = (key ++ b'=' ∷ val) ∷ pairs_of m

unfoldable pub env_pairs_from_map : Dict Text → List Text
env_pairs_from_map values = pairs_of (sorted_entries values)

-- The anonymous struct of ParseExecPayload.
pub record ExecPayload : Type 0 where
  pub delivery : Text
  pub command : Text
  pub args : List Text
  pub work_dir : Text
  pub env_passthrough : List Text
  pub family_key : Text
  pub requires_env_file : Bool
  pub preflight_env : Dict Text

unfoldable pub parse_exec_payload : (List ℕ → Option ExecPayload) → List ℕ → Option SpawnConfig
parse_exec_payload unmarshal raw = elim (unmarshal raw) [
  | none ↦ none
  | some payload ↦
      if text_eq payload.command []
      then none
      else some (record {
        command = payload.command;
        args = apply_filesystem_open_root payload.family_key payload.args;
        work_dir = payload.work_dir;
        env = [];
        env_passthrough = payload.env_passthrough;
        family_key = payload.family_key;
        requires_env_file = payload.requires_env_file;
        preflight_env = env_pairs_from_map payload.preflight_env;
      })
]
