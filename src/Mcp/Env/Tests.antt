-- ===== src/Mcp/Env/Tests.antt =====
-- Runs on environments.
use orbitproxy_go.Prelude.{
  ◌≡◌, ◌≢◌, ◌⊎◌, ◌≤◌, refl, false, Text, text_eq, text_Eq, codes, List, [], ◌∷◌, ◌++◌, Option, none,
  some, delete, insert, lookup, cut,
}
use orbitproxy_go.Mcp.SpawnConfig.{SpawnConfig}
use orbitproxy_go.Mcp.Env.Merge.{merge_env_pairs, add_all, add, add_at, key_of, set_at}
use orbitproxy_go.Mcp.Env.Override.{entries_of, last_entry, merge_env_pairs-override}
use orbitproxy_go.Mcp.Env.File.{
  lines, parse_lines, pairs_at, endpoint_env_file_path, apply_endpoint_env_file,
}
use orbitproxy_go.Mcp.Env.Keys.{AllKeyed, parse_lines-AllKeyed, apply_endpoint_env_file-override}
use orbitproxy_go.Mcp.Env.Build.{
  build_env, ensure_key, explicit_keys, is_in, pass_one, pass_through, spawn_env,
}
use orbitproxy_go.Mcp.Env.Allowed.{AllAllowed, spawn_env-allowed}

abbrev old : List Text
old = codes "A=1" ∷ codes "B=2" ∷ codes "A=3" ∷ codes "nothing" ∷ []

abbrev new : List Text
new = codes "B=4" ∷ codes "C=5" ∷ []

merged : merge_env_pairs old new ≡ some (codes "A=3" ∷ codes "B=4" ∷ codes "C=5" ∷ [])
unfolding merge_env_pairs add_all add add_at key_of set_at text_eq cut lookup insert delete
merged = refl

merge_env_pairs-override_test :
    (out : List Text) × (merge_env_pairs old new ≡ some out)
    × ((k : Text) → entries_of k out ≤ 1)
    × ((k : Text)
        → last_entry k out
          ≡ elim (last_entry k new) [ some kv ↦ some kv | none ↦ last_entry k old ])
merge_env_pairs-override_test = merge_env_pairs-override old new

abbrev texts : List Text
texts = codes "# token" ∷ codes "export TOKEN = \"a=b\"" ∷ codes "bad" ∷ []

parse_lines-AllKeyed_test : AllKeyed (parse_lines texts)
parse_lines-AllKeyed_test = parse_lines-AllKeyed texts

abbrev join : Text → Text → Text → Text
join a b c = a ++ b'/' ∷ b ++ b'/' ∷ c

abbrev spawn : SpawnConfig
spawn = record {
  command = codes "npx";
  args = [];
  work_dir = [];
  env = codes "TOKEN=old" ∷ [];
  env_passthrough = [];
  family_key = [];
  requires_env_file = false;
  preflight_env = [];
}

apply_endpoint_env_file-override_example :
    let pairs =
      pairs_at join
        (λ p. lines texts)
        (endpoint_env_file_path join (λ p. lines texts) (codes "/m") (codes "ep")) in
    (env : List Text) × (apply_endpoint_env_file join
        (λ p. lines texts)
        spawn
        (codes "/m")
        (codes "ep")
      ≡ some (record spawn { env = env }))
    × (((pairs ≡ []) × (env ≡ spawn.env))
        ⊎ ((pairs ≢ []) × (merge_env_pairs spawn.env pairs ≡ some env)))
    × ((k : Text)
        → last_entry k env
          ≡ elim (last_entry k pairs) [ some kv ↦ some kv | none ↦ last_entry k spawn.env ])
apply_endpoint_env_file-override_example =
    apply_endpoint_env_file-override join (λ p. lines texts) spawn (codes "/m") (codes "ep")

abbrev environ : List Text
environ = codes "SECRET=1" ∷ []

abbrev lookup_env : Text → Option Text
lookup_env name = some (codes "en")

abbrev white_list : List Text
white_list = codes "LANG" ∷ []

spawn_env-allowed_example :
    ((added : List Text) × (spawn_env environ lookup_env (codes "/bin") [] [] old white_list
        ≡ old ++ added)
      × (old ++ added ≢ [])
      × AllAllowed environ lookup_env (codes "/bin") [] [] old white_list added)
    ⊎ ((old ≡ [])
        × (build_env environ lookup_env (codes "/bin") [] [] old white_list ≡ [])
        × (spawn_env environ lookup_env (codes "/bin") [] [] old white_list ≡ environ))
spawn_env-allowed_example =
    spawn_env-allowed environ lookup_env (codes "/bin") [] [] old white_list refl

-- A white list none of whose variables is set: the child has the whole environment.
inherits_all : spawn_env environ (λ name. none) [] [] [] [] white_list ≡ environ
unfolding spawn_env build_env pass_through pass_one ensure_key explicit_keys is_in text_eq
inherits_all = refl
