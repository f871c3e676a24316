-- ===== src/Mcp/Userenv/Tests.antt =====
-- Setting a key twice over.
use orbitproxy_go.Prelude.{◌≡◌, Text, codes, List, [], ◌∷◌, ◌++◌}
use orbitproxy_go.Mcp.Userenv.{replace_env_key}
use orbitproxy_go.Mcp.Userenv.Replaced.{with_prefix, without_prefix, replace_env_key-with_prefix}

abbrev env : List Text
env = codes "PATH=/bin" ∷ codes "A=1" ∷ codes "PATH=/sbin" ∷ []

replace_env_key-with_prefix_test :
    (with_prefix (codes "PATH" ++ codes "=") (replace_env_key env (codes "PATH") (codes "/usr/bin"))
      ≡ (codes "PATH" ++ codes "=" ++ codes "/usr/bin") ∷ [])
    × (without_prefix
          (codes "PATH" ++ codes "=")
          (replace_env_key env (codes "PATH") (codes "/usr/bin"))
        ≡ without_prefix (codes "PATH" ++ codes "=") env)
replace_env_key-with_prefix_test =
    replace_env_key-with_prefix env (codes "PATH") (codes "/usr/bin") (λ h. cc h)
