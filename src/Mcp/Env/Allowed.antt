-- ===== src/Mcp/Env/Allowed.antt =====
-- internal/mcp/mcpstdio/spawn.go: what a child process can see of the environment.
use orbitproxy_go.Prelude.{
  append_assoc, ◌≡◌, ◌≢◌, refl, ap, sym, subst, ◌∙◌, ◌⊎◌, inl, inr, true, false, ◌&&◌, Text,
  text_eq, text_eq_iff, text_eq_refl, List, [], ◌∷◌, ◌++◌, Option, some, length, ltb, ◌==◌, arith,
  Bool-cases, Option-cases,
}
use orbitproxy_go.Mcp.Env.Build.{
  is_in, pair, explicit_keys, Building, path_key, home_key, npm_key, append_pair, pass_one,
  pass_through, ensure_key, build_env, spawn_env,
}

-- Every name of `names` is in a list.
abbrev AllIn : List Text → List Text → Type 0
AllIn all [] = Unit
AllIn all (n ∷ names) = (is_in n all ≡ true) × AllIn all names

AllIn-cons : (x : Text) (all names : List Text) → AllIn all names → AllIn (x ∷ all) names
unfolding is_in
AllIn-cons x all [] h = tt
AllIn-cons x all (n ∷ names) h = (ground (arith, h.0), AllIn-cons x all names h.1)

self-AllIn : (names : List Text) → AllIn names names
unfolding is_in
self-AllIn [] = tt
self-AllIn (n ∷ names) = (rw (text_eq_refl n) refl, AllIn-cons n names names (self-AllIn names))

append_nil : (xs : List Text) → xs ≡ xs ++ []
append_nil [] = refl
append_nil (x ∷ xs) = ap (◌∷◌ x) (append_nil xs)

list_cases :
    (xs : List Text)
    → ((xs ≡ []) × (ltb 0 (length xs) ≡ false)) ⊎ ((xs ≢ []) × (ltb 0 (length xs) ≡ true))
list_cases [] = inl (refl, refl)
list_cases (x ∷ xs) = inr (λ h. cc h, ground arith)

empty_left : (xs ys : List Text) → xs ++ ys ≡ [] → xs ≡ []
empty_left [] ys h = refl
empty_left (x ∷ xs) ys h = absurd (cc h)

module _ (environ : List Text) (lookup_env : Text → Option Text) (path home npm_prefix : Text)
    (explicit passthrough : List Text) where
  -- A name that may be added, with its value.
  abbrev pub Allowed : Text → Text → Type 0
  Allowed name val =
      ((is_in name passthrough ≡ true) × (lookup_env name ≡ some val))
      ⊎ ((name ≡ path_key) × (val ≡ path))
      ⊎ ((name ≡ home_key) × (val ≡ home))
      ⊎ ((name ≡ npm_key) × (val ≡ npm_prefix))

  -- Every added text is allowed, and its name is not one of the explicit keys.
  abbrev pub AllAllowed : List Text → Type 0
  AllAllowed [] = Unit
  AllAllowed (kv ∷ kvs) =
      ((name val : Text) × (kv ≡ pair name val)
        × (is_in name (explicit_keys explicit) ≡ false)
        × Allowed name val)
      × AllAllowed kvs

  record Extends (b : Building) : Type 0 where
    added : List Text
    kept : b.result ≡ explicit ++ added
    allowed : AllAllowed added
    seen_keys :
        (name : Text) → is_in name b.seen ≡ false → is_in name (explicit_keys explicit) ≡ false

  AllAllowed-append :
      (kvs : List Text) (kv : Text)
      → AllAllowed kvs
      → AllAllowed (kv ∷ [])
      → AllAllowed (kvs ++ kv ∷ [])
  AllAllowed-append [] kv a b = b
  AllAllowed-append (x ∷ kvs) kv a b = (a.0, AllAllowed-append kvs kv a.1 b)

  -- One more text.
  extend :
      (name val : Text) (seen : List Text) (b : Building)
      → Extends b
      → is_in name b.seen ≡ false
      → Allowed name val
      → ((n : Text) → is_in n seen ≡ false → is_in n b.seen ≡ false)
      → Extends (record { result = b.result ++ pair name val ∷ []; seen = seen })
  extend name val seen b x new ok less = record {
    added = x.added ++ pair name val ∷ [];
    kept =
        ap (λ r. r ++ pair name val ∷ []) x.kept
        ∙ append_assoc explicit x.added (pair name val ∷ []);
    allowed =
        AllAllowed-append x.added (pair name val) x.allowed
          ((name, val, refl, x.seen_keys name new, ok), tt);
    seen_keys = λ n h. x.seen_keys n (less n h);
  }

  pass_one-Extends :
      (name : Text) (b : Building)
      → is_in name passthrough ≡ true
      → Extends b
      → Extends (pass_one environ lookup_env path home npm_prefix name b)
  unfolding pass_one append_pair is_in
  pass_one-Extends name b listed x = elim (Bool-cases (is_in name b.seen)) [
    | inl done ↦ rw (done, pass_one) x
    | inr new ↦ elim (Bool-cases (text_eq name path_key)) [
      | inl is_path ↦ elim (Bool-cases (text_eq path [])) [
        | inl unset ↦ rw (new, pass_one) (rw (is_path, unset) x)
        | inr set ↦
            let same : name ≡ path_key = (text_eq_iff name path_key).0 is_path in
            rw (new, pass_one)
              (rw (is_path, set)
                (extend path_key path (path_key ∷ b.seen) b x
                  (subst (λ n. is_in n b.seen ≡ false) same new) (inr (inl (refl, refl)))
                  (λ n h. ground arith)))
      ]
      | inr other ↦ elim (Option-cases (lookup_env name)) [
        | inl unset ↦ rw (new, pass_one) (rw (other, unset) x)
        | inr (val, set) ↦
            rw (new, pass_one)
              (rw (other, set)
                (extend name val (name ∷ b.seen) b x new (inl (listed, set)) (λ n h. ground arith)))
      ]
    ]
  ]

  ensure_key-Extends :
      (key val : Text) (b : Building)
      → Allowed key val
      → Extends b
      → Extends (ensure_key passthrough key val b)
  unfolding ensure_key
  ensure_key-Extends key val b ok x = elim (Bool-cases (text_eq val [])) [
    | inl empty ↦ rw (empty, ensure_key) x
    | inr set ↦ elim (Bool-cases (is_in key b.seen)) [
      | inl done ↦ rw (set, ensure_key) (rw done x)
      | inr new ↦ elim (Bool-cases (is_in key passthrough)) [
        | inl listed ↦ rw (set, ensure_key) (rw (new, listed) x)
        | inr more ↦
            rw (set, ensure_key) (rw (new, more) (extend key val b.seen b x new ok (λ n h. h)))
      ]
    ]
  ]

  pass_through-Extends :
      (names : List Text) (b : Building)
      → AllIn passthrough names
      → Extends b
      → Extends (pass_through environ lookup_env path home npm_prefix names b)
  unfolding pass_through
  pass_through-Extends [] b l x = x
  pass_through-Extends (n ∷ names) b l x =
      pass_through-Extends names (pass_one environ lookup_env path home npm_prefix n b) l.1
        (pass_one-Extends n b l.0 x)

  -- With something configured, the list of buildEnv is the explicit one and what is allowed.
  build_env_lem :
      (length explicit == 0 && length passthrough == 0) ≡ false
      → (added : List Text) × (build_env environ lookup_env path home npm_prefix explicit
            passthrough
          ≡ explicit ++ added)
        × AllAllowed added
  unfolding build_env
  build_env_lem configured =
      let start : Building = record { result = explicit; seen = explicit_keys explicit } in
      let start-Extends : Extends start = record {
        added = [];
        kept = append_nil explicit;
        allowed = tt;
        seen_keys = λ n h. h;
      } in
      let end = ensure_key-Extends npm_key npm_prefix _ (inr (inr (inr (refl, refl)))) (
        ensure_key-Extends home_key home _ (inr (inr (inl (refl, refl)))) (
          ensure_key-Extends path_key path _ (inr (inl (refl, refl)))
            (pass_through-Extends passthrough start (self-AllIn passthrough) start-Extends))) in
      (end.added, rw (configured, build_env) end.kept, end.allowed)

  -- With an explicit environment or a white list configured, the environment that Spawn gives the child
  -- is the explicit one followed by texts NAME=VALUE whose names are not explicit keys, and each of
  -- which is a variable of the white list with the process's value, or PATH, HOME or npm_config_prefix
  -- with the value of the user's tools; nothing else of the process's environment reaches the child.
  -- The one exception: with no explicit environment, and where nothing could be added, the list is empty
  -- and the child has the whole environment of the process.
  pub spawn_env-allowed :
      (length explicit == 0 && length passthrough == 0) ≡ false
      → let env = spawn_env environ lookup_env path home npm_prefix explicit passthrough in
        ((added : List Text) × (env ≡ explicit ++ added)
          × (explicit ++ added ≢ [])
          × AllAllowed added)
        ⊎ ((explicit ≡ [])
            × (build_env environ lookup_env path home npm_prefix explicit passthrough ≡ [])
            × (env ≡ environ))
  unfolding spawn_env
  spawn_env-allowed configured =
      let list = build_env environ lookup_env path home npm_prefix explicit passthrough in
      let (added, is, allowed) = build_env_lem configured in
      elim (list_cases list) [
        | inl (empty, none_in) ↦
            inr (empty_left explicit added (sym is ∙ empty), empty, rw (none_in, spawn_env) refl)
        | inr (full, some_in) ↦ inl (added, rw (some_in, spawn_env) is, λ h. full (is ∙ h), allowed)
      ]
