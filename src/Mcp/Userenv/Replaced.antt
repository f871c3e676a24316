-- ===== src/Mcp/Userenv/Replaced.antt =====
-- internal/userenv/npm.go: replaceEnvKey, and replaceEnvValue of internal/mcp/preflight/command.go.
use orbitproxy_go.Prelude.{
  ◌≡◌, ◌≢◌, refl, ap, inl, inr, true, false, Text, text_eq, codes, has_prefix, List, [], ◌∷◌, ◌++◌,
  arith, if◌then◌else◌, Bool-cases,
}
use orbitproxy_go.Mcp.Userenv.{replace_pairs, replace_env_key}

-- The pairs that start with a text, and those that do not.
abbrev pub with_prefix : Text → List Text → List Text
with_prefix p [] = []
with_prefix p (kv ∷ env) =
    let rest = with_prefix p env in if has_prefix kv p then kv ∷ rest else rest

abbrev pub without_prefix : Text → List Text → List Text
without_prefix p [] = []
without_prefix p (kv ∷ env) =
    let rest = without_prefix p env in if has_prefix kv p then rest else kv ∷ rest

has_prefix_self : (p s : Text) → has_prefix (p ++ s) p ≡ true
unfolding has_prefix
has_prefix_self [] s = ground arith
has_prefix_self (c ∷ p) s = ground (arith, has_prefix_self p s)

replaced_lem :
    (p val : Text) (env : List Text)
    → (with_prefix p (replace_pairs p val true env) ≡ [])
      × (without_prefix p (replace_pairs p val true env) ≡ without_prefix p env)
unfolding replace_pairs
replaced_lem p val [] = (refl, refl)
replaced_lem p val (kv ∷ env) =
    let (gone, kept) = replaced_lem p val env in
    elim (Bool-cases (has_prefix kv p)) [
      | inl pair ↦ (rw pair gone, rw pair kept)
      | inr other ↦ rw other (rw other (gone, ap (◌∷◌ kv) kept))
    ]

replace_pairs_lem :
    (p val : Text) (env : List Text)
    → (with_prefix p (replace_pairs p val false env) ≡ (p ++ val) ∷ [])
      × (without_prefix p (replace_pairs p val false env) ≡ without_prefix p env)
unfolding replace_pairs
replace_pairs_lem p val [] = rw (has_prefix_self p val) (refl, refl)
replace_pairs_lem p val (kv ∷ env) = elim (Bool-cases (has_prefix kv p)) [
  | inl pair ↦
      let (gone, kept) = replaced_lem p val env in
      rw pair (rw (has_prefix_self p val) (ap (◌∷◌ (p ++ val)) gone, kept))
  | inr other ↦
      let (one, kept) = replace_pairs_lem p val env in rw other (rw other (one, ap (◌∷◌ kv) kept))
]

-- Setting a key to a text that is not empty leaves one pair for the key, with that text, however many
-- there were, and leaves the other pairs as they are and in their order.
pub replace_env_key-with_prefix :
    (env : List Text) (key val : Text)
    → val ≢ []
    → (with_prefix (key ++ codes "=") (replace_env_key env key val)
        ≡ (key ++ codes "=" ++ val) ∷ [])
      × (without_prefix (key ++ codes "=") (replace_env_key env key val)
          ≡ without_prefix (key ++ codes "=") env)
unfolding replace_env_key text_eq
replace_env_key-with_prefix env key [] full = absurd (full refl)
replace_env_key-with_prefix env key (c ∷ val) full =
    replace_pairs_lem (key ++ codes "=") (c ∷ val) env
