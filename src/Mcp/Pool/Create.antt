-- ===== src/Mcp/Pool/Create.antt =====
-- GetOrCreate keeps the pool well formed in both of its sections, and what it decides.
use orbitproxy_go.Prelude.{
  ℕ, suc, ◌<◌, ◌≡◌, ◌⊎◌, inl, inr, Bool, false, Text, text_eq_iff, Option, none, some, text_Eq,
  lookup, insert, length, arith, lookup-delete, lookup-insert, delete-IsDict, insert-IsDict,
  length-delete, length-insert_fresh, Option-cases, Bool-cases, int32_at_least, int_at_least,
  inc_int, inc_int32,
}
use orbitproxy_go.Mcp.SpawnConfig.{SessionConfig}
use orbitproxy_go.Mcp.Pool.{
  Pool, Session, Flight, global_limit, endpoint_limit, not_registered, create, count_of,
  create_config, remove_session, begin_create, join_or_create, get_or_create, finish_create,
}
use orbitproxy_go.Mcp.Pool.Invariant.{PoolInv, remove_session-PoolInv}

-- The pool in which a create for `key` has begun.
abbrev pub begun : Text → Text → SessionConfig → Pool → Pool
begun key e cfg p = record p {
  creating = insert key (record { endpoint_id = e; cfg = create_config p e cfg }) p.creating;
  ep_count = insert e (inc_int (count_of e p.ep_count)) p.ep_count;
  global_count = inc_int32 p.global_count;
}

module _ (key e : Text) (p : Pool) where
  -- The three refusals, or a begun create below both limits.
  pub begin_create_cases :
      (begin_create key e p ≡ (p, global_limit))
      ⊎ ((begin_create key e p ≡ (p, endpoint_limit))
          ⊎ ((begin_create key e p ≡ (p, not_registered))
              ⊎ ((cfg : SessionConfig) × (begin_create key e p
                    ≡ (begun key e cfg p, create (create_config p e cfg)))
                  × (lookup e p.configs ≡ some cfg)
                  × (int32_at_least p.global_count p.max_global ≡ false)
                  × (int_at_least (count_of e p.ep_count) p.max_sessions ≡ false))))
  unfolding begin_create
  begin_create_cases = elim (Bool-cases (int32_at_least p.global_count p.max_global)) [
    | inl full ↦ inl (rw full)
    | inr room ↦ elim (Bool-cases (int_at_least (count_of e p.ep_count) p.max_sessions)) [
      | inl full ↦ inr (inl (rw (room, full)))
      | inr free ↦ elim (Option-cases (lookup e p.configs)) [
        | inl missing ↦ inr (inr (inl (rw (room, free, missing, begin_create))))
        | inr (cfg, at) ↦ inr (inr (inr (cfg, rw (room, free, at, begin_create), at, room, free)))
      ]
    ]
  ]

  begun-PoolInv :
      (cfg : SessionConfig)
      → PoolInv p
      → lookup key p.sessions ≡ none
      → lookup key p.creating ≡ none
      → int32_at_least p.global_count p.max_global ≡ false
      → PoolInv (begun key e cfg p)
  begun-PoolInv cfg v no_session no_flight room =
      let flight : Flight = record { endpoint_id = e; cfg = create_config p e cfg } in
      let len : length (insert key flight p.creating) ≡ suc (length p.creating) =
        length-insert_fresh key flight p.creating no_flight in
      let below : p.global_count < p.max_global =
        ground (arith, v.counted, v.bounded, v.limit_small) in
      record {
        sessions_keys = v.sessions_keys;
        creating_keys = insert-IsDict key flight p.creating v.creating_keys;
        apart = λ k f h.
            ground (arith, lookup-insert key k flight p.creating, text_eq_iff key k, v.apart k f);
        counted = omega (arith, v.counted, below, v.limit_small, len);
        bounded = omega (arith, v.counted, below, len);
        limit_small = v.limit_small;
      }

  begin_create-PoolInv :
      PoolInv p
      → lookup key p.sessions ≡ none
      → lookup key p.creating ≡ none
      → PoolInv (begin_create key e p).0
  begin_create-PoolInv v no_session no_flight = elim begin_create_cases [
    | inl h ↦ rw h v
    | inr (inl h) ↦ rw h v
    | inr (inr (inl h)) ↦ rw h v
    | inr (inr (inr (cfg, h, at, room, free))) ↦
        rw h (begun-PoolInv cfg v no_session no_flight room)
  ]

  join_or_create-PoolInv :
      PoolInv p → lookup key p.sessions ≡ none → PoolInv (join_or_create key e p).0
  unfolding join_or_create
  join_or_create-PoolInv v no_session = elim (Option-cases (lookup key p.creating)) [
    | inl no_flight ↦ rw (no_flight, join_or_create) (begin_create-PoolInv v no_session no_flight)
    | inr (flight, at) ↦ rw (at, join_or_create) v
  ]

pub lookup-remove_session :
    (key e : Text) (p : Pool) → lookup key (remove_session key e p).sessions ≡ none
unfolding remove_session
lookup-remove_session key e p =
    ground (arith, lookup-delete key key p.sessions, text_eq_iff key key)

pub get_or_create-PoolInv :
    (alive : ℕ → Bool) (key e : Text) (p : Pool)
    → PoolInv p
    → PoolInv (get_or_create alive key e p).0
unfolding get_or_create
get_or_create-PoolInv alive key e p v = elim (Bool-cases p.stopped) [
  | inl stop ↦ simp stop v
  | inr runs ↦ elim (Option-cases (lookup key p.sessions)) [
    | inl missing ↦
        simp runs (rw (missing, get_or_create) (join_or_create-PoolInv key e p v missing))
    | inr (s, at) ↦ elim (Bool-cases (alive s.id)) [
      | inl live ↦ simp runs (rw (at, get_or_create) (rw live v))
      | inr dead ↦ simp runs (
          rw (at, get_or_create)
            (rw dead (
              join_or_create-PoolInv key e (remove_session key e p)
                (remove_session-PoolInv key e p v) (lookup-remove_session key e p))))
    ]
  ]
]

pub finish_create-PoolInv :
    (key e : Text) (outcome : Option Session) (p : Pool) (f : Flight)
    → PoolInv p
    → lookup key p.creating ≡ some f
    → PoolInv (finish_create key e outcome p)
unfolding finish_create
finish_create-PoolInv key e none p f v at =
    let len = length-delete key f p.creating v.creating_keys at in
    record {
      sessions_keys = v.sessions_keys;
      creating_keys = delete-IsDict key p.creating v.creating_keys;
      apart = λ k g h. ground (arith, lookup-delete key k p.creating, v.apart k g);
      counted = omega (arith, v.counted, v.bounded, v.limit_small, len);
      bounded = omega (arith, v.bounded, len);
      limit_small = v.limit_small;
    }
finish_create-PoolInv key e (some s) p f v at =
    let len = length-delete key f p.creating v.creating_keys at in
    let more = length-insert_fresh key s p.sessions (v.apart key f at) in
    record {
      sessions_keys = insert-IsDict key s p.sessions v.sessions_keys;
      creating_keys = delete-IsDict key p.creating v.creating_keys;
      apart = λ k g h.
          ground
            (arith, lookup-delete key k p.creating, lookup-insert key k s p.sessions, v.apart k g);
      counted = omega (arith, v.counted, len, more);
      bounded = omega (arith, v.bounded, len, more);
      limit_small = v.limit_small;
    }
