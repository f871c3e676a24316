-- ===== src/Mcp/Env/Keys.antt =====
-- internal/mcp/mcpstdio/envfile.go: the pairs of an environment file all have a key, and the file
-- overrides what the configuration says.
use orbitproxy_go.Prelude.{
  ◌≡◌, ◌≢◌, ◌⊎◌, refl, ap, subst, inl, inr, true, false, not, ◌||◌, Text, text_eq, codes, List, [],
  ◌∷◌, ◌++◌, none, some, length, ◌==◌, arith, cut, trim_space, trim_left, has_prefix, all,
  Bool-cases, Option-cases,
}
use mathlib.Core.List.{reverse, reverse_aux}
use orbitproxy_go.Mcp.SpawnConfig.{SpawnConfig}
use orbitproxy_go.Mcp.Env.Merge.{key_of, merge_env_pairs}
use orbitproxy_go.Mcp.Env.Override.{last_entry, merge_env_pairs-override}
use orbitproxy_go.Mcp.Env.File.{
  parse_pair, parse_line, parse_lines, EnvFile, endpoint_env_file_path, pairs_at,
  apply_endpoint_env_file, unquote, strip_export,
}

-- No `=` in a text.
abbrev Plain : Text → Type 0
Plain s = all (λ c. not (c == b'=')) s ≡ true

cut-Plain : (s : Text) → Plain (cut b'=' s).0
unfolding cut
cut-Plain [] = refl
cut-Plain (c ∷ s) = ground (arith, cut-Plain s)

Plain-append : (s t : Text) → Plain s → Plain t → Plain (s ++ t)
Plain-append [] t p q = q
Plain-append (c ∷ s) t p q = ground (arith, Plain-append s t)

trim_left-Plain : (s : Text) → Plain s → Plain (trim_left s)
unfolding trim_left
trim_left-Plain [] p = refl
trim_left-Plain (c ∷ s) p = ground (arith, trim_left-Plain s)

reverse_aux-Plain : (s r : Text) → Plain s → Plain r → Plain (reverse_aux s r)
reverse_aux-Plain [] r p q = q
reverse_aux-Plain (c ∷ s) r p q = reverse_aux-Plain s (c ∷ r) (ground arith) (ground arith)

trim_space-Plain : (s : Text) → Plain s → Plain (trim_space s)
unfolding trim_space
trim_space-Plain s p =
    reverse_aux-Plain (trim_left (reverse (trim_left s))) []
      (trim_left-Plain (reverse_aux (trim_left s) [])
        (reverse_aux-Plain (trim_left s) [] (trim_left-Plain s p) refl))
      refl

cut-Plain' : (s t : Text) → Plain s → cut b'=' (s ++ b'=' ∷ t) ≡ (s, some t)
unfolding cut
cut-Plain' [] t p = refl
cut-Plain' (c ∷ s) t p =
    let other : (c == b'=') ≡ false = ground arith in
    let ih = cut-Plain' s t (ground arith) in simp (other, ih)

key_of-cut : (kv s t : Text) → cut b'=' kv ≡ (s, some t) → text_eq s [] ≡ false → key_of kv ≡ some s
unfolding key_of
key_of-cut kv s t e nonempty =
    let after : (cut b'=' kv).1 ≡ some t = ap (λ r. r.1) e in
    let before : (cut b'=' kv).0 ≡ s = ap (λ r. r.0) e in
    rw (after, key_of) (rw (before, nonempty) refl)

parse_pair-key_of :
    (line kv : Text) → parse_pair line ≡ some kv → key_of kv ≡ some (trim_space (cut b'=' line).0)
unfolding parse_pair
parse_pair-key_of line kv h = elim (Option-cases (cut b'=' line).1) [
  | inl missing ↦ absurd (ground (arith, missing))
  | inr (val, at) ↦ elim (Bool-cases (text_eq (trim_space (cut b'=' line).0) [])) [
    | inl empty ↦ absurd (ground (arith, at))
    | inr named ↦
        let key = trim_space (cut b'=' line).0 in
        let pair = key ++ b'=' ∷ unquote (trim_space val) in
        let same : pair ≡ kv = ground (arith, at, named) in
        subst (λ kv. key_of kv ≡ some key) same
          (key_of-cut pair key (unquote (trim_space val))
            (cut-Plain' key (unquote (trim_space val))
              (trim_space-Plain (cut b'=' line).0 (cut-Plain line)))
            named)
  ]
]

-- Every text of a list has a key.
abbrev pub AllKeyed : List Text → Type 0
AllKeyed [] = Unit
AllKeyed (kv ∷ kvs) = ((k : Text) × (key_of kv ≡ some k)) × AllKeyed kvs

parse_line-key_of : (text kv : Text) → parse_line text ≡ some kv → (k : Text) × (key_of kv ≡ some k)
unfolding parse_line
parse_line-key_of text kv h =
    let line = trim_space text in
    elim (Bool-cases (text_eq line [] || has_prefix line (codes "#"))) [
      | inl skipped ↦ absurd (ground arith)
      | inr pair ↦
          let h' : parse_pair (strip_export line) ≡ some kv = ground arith in
          (_, parse_pair-key_of (strip_export line) kv h')
    ]

-- Every text that the loop of readEnvFile collects is a pair that mergeEnvPairs takes: it has a `=`
-- and a key before it that is not empty, whatever the lines are.
pub parse_lines-AllKeyed : (texts : List Text) → AllKeyed (parse_lines texts)
unfolding parse_lines
parse_lines-AllKeyed [] = tt
parse_lines-AllKeyed (text ∷ texts) = elim (Option-cases (parse_line text)) [
  | inl skipped ↦ rw (skipped, parse_lines) (parse_lines-AllKeyed texts)
  | inr (kv, parsed) ↦
      rw (parsed, parse_lines) (parse_line-key_of text kv parsed, parse_lines-AllKeyed texts)
]

length_zero : (kvs : List Text) → length kvs ≡ 0 → kvs ≡ []
length_zero [] h = refl
length_zero (kv ∷ kvs) h = absurd (omega (arith, h))

not_empty : (kvs : List Text) → (length kvs == 0) ≡ false → kvs ≢ []
not_empty [] h = absurd (cc h)
not_empty (kv ∷ kvs) h = λ e. cc e

-- ApplyEndpointEnvFile always gives a configuration, and changes nothing but its environment. There,
-- for each key, the file's last pair for it is the last entry, and a key that the file does not set has
-- the last entry that it had. Where no pairs are read (a file that is absent, cannot be read or has no
-- pairs) the environment stays as it is, entry for entry; otherwise it is what mergeEnvPairs makes of it.
pub apply_endpoint_env_file-override :
    (join : Text → Text → Text → Text) (read : Text → EnvFile) (cfg : SpawnConfig)
    (machine_dir endpoint_id : Text)
    → let pairs = pairs_at join read (endpoint_env_file_path join read machine_dir endpoint_id) in
      (env : List Text) × (apply_endpoint_env_file join read cfg machine_dir endpoint_id
        ≡ some (record cfg { env = env }))
      × (((pairs ≡ []) × (env ≡ cfg.env))
          ⊎ ((pairs ≢ []) × (merge_env_pairs cfg.env pairs ≡ some env)))
      × ((k : Text)
          → last_entry k env
            ≡ elim (last_entry k pairs) [ some kv ↦ some kv | none ↦ last_entry k cfg.env ])
unfolding apply_endpoint_env_file
apply_endpoint_env_file-override join read cfg machine_dir endpoint_id =
    let pairs = pairs_at join read (endpoint_env_file_path join read machine_dir endpoint_id) in
    elim (Bool-cases (length pairs == 0)) [
      | inl empty ↦
          let absent : pairs ≡ [] = length_zero pairs (ground arith) in
          (cfg.env, rw empty refl, inl (absent, refl), λ k. rw absent refl)
      | inr some_pairs ↦
          let (env, merged, once, last) = merge_env_pairs-override cfg.env pairs in
          (env, rw (some_pairs, merged) refl, inr (not_empty pairs some_pairs, merged), last)
    ]
