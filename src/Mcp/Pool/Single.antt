-- ===== src/Mcp/Pool/Single.antt =====
-- internal/mcp/mcpstdio/pool.go: while a create for a session key is in flight, whatever else happens in
-- the pool, no other one begins for that key.
use orbitproxy_go.Prelude.{
  ℕ, ◌^◌, ◌<◌, ◌≡◌, ◌≢◌, ap, sym, ◌∙◌, ◌⊎◌, inl, inr, Bool, true, false, Text, text_eq_iff, text_Eq,
  none, some, lookup, arith, lookup-delete, lookup-insert, Bool-cases, Option-cases,
}
use orbitproxy_go.Mcp.SpawnConfig.{SessionConfig}
use orbitproxy_go.Mcp.Pool.{
  Pool, PoolConfig, Flight, Decision, new_pool, close_endpoint_sessions, remove_session,
  register_endpoint, unregister_endpoint, stopped_error, wait, create, create_config, begin_create,
  join_or_create, get_or_create, finish_create, invalidate, close_done, stop_pool, close_all_key,
  reset_counts, reap_key,
}
use orbitproxy_go.Mcp.Pool.Invariant.{PoolInv}
use orbitproxy_go.Mcp.Pool.Create.{begin_create_cases, get_or_create-PoolInv}
use orbitproxy_go.Mcp.Pool.Steps.{Step, Reach, Step-PoolInv, Reach-PoolInv, new_pool-PoolInv}

-- The section does not end the create of a key.
abbrev pub Spares : Text → {p q : Pool} → Step p q → Type 0
Spares key (Step.finish k f outcome at) = k ≢ key
Spares key _ = Unit

-- Any sections of any goroutines, but not the end of the create of a key.
pub data Meanwhile (key : Text) (p : Pool) : Pool → Type 0 where
  start : Meanwhile key p p
  then_step : {q r : Pool} → Meanwhile key p q → (s : Step q r) → Spares key s → Meanwhile key p r

remove_session-creating : (k e : Text) (p : Pool) → (remove_session k e p).creating ≡ p.creating
unfolding remove_session
remove_session-creating k e p = ground arith

module _ (key : Text) (f : Flight) where
  -- The create of the key is in flight.
  abbrev Flies : Pool → Type 0
  Flies p = lookup key p.creating ≡ some f

  begin_create-Flies :
      (k e : Text) (p : Pool) → lookup k p.creating ≡ none → Flies p → Flies (begin_create k e p).0
  begin_create-Flies k e p no_flight at = elim (begin_create_cases k e p) [
    | inl h ↦ rw h at
    | inr (inl h) ↦ rw h at
    | inr (inr (inl h)) ↦ rw h at
    | inr (inr (inr (cfg, h, known, room, free))) ↦
        let flight : Flight = record { endpoint_id = e; cfg = create_config p e cfg } in
        rw h
          (ground (arith, lookup-insert k key flight p.creating, text_eq_iff k key, no_flight, at))
  ]

  join_or_create-Flies : (k e : Text) (p : Pool) → Flies p → Flies (join_or_create k e p).0
  unfolding join_or_create
  join_or_create-Flies k e p at = elim (Option-cases (lookup k p.creating)) [
    | inl no_flight ↦ rw (no_flight, join_or_create) (begin_create-Flies k e p no_flight at)
    | inr (flight, there) ↦ rw (there, join_or_create) at
  ]

  get_or_create-Flies :
      (alive : ℕ → Bool) (k e : Text) (p : Pool) → Flies p → Flies (get_or_create alive k e p).0
  unfolding get_or_create
  get_or_create-Flies alive k e p at =
      let fresh = join_or_create-Flies k e p at in
      let again =
        join_or_create-Flies k e (remove_session k e p)
          (ap (lookup key) (remove_session-creating k e p) ∙ at) in
      ground (arith, fresh, again, at)

  Step-Flies : {p q : Pool} → (s : Step p q) → Spares key s → Flies p → Flies q
  unfolding register_endpoint unregister_endpoint close_endpoint_sessions invalidate remove_session
      reap_key close_done stop_pool close_all_key reset_counts finish_create
  Step-Flies {p} (Step.register e cfg) s at = ground (arith, at)
  Step-Flies {p} (Step.unregister e) s at = at
  Step-Flies {p} (Step.get alive k e) s at = get_or_create-Flies alive k e p at
  Step-Flies {p} (Step.finish k g none _) s at =
      ground (arith, lookup-delete k key p.creating, text_eq_iff k key, s, at)
  Step-Flies {p} (Step.finish k g (some x) _) s at =
      ground (arith, lookup-delete k key p.creating, text_eq_iff k key, s, at)
  Step-Flies {p} (Step.invalidates k) s at = ground (arith, at)
  Step-Flies {p} (Step.reap k) s at = ground (arith, at)
  Step-Flies {p} (Step.closed before after x e) s at = at
  Step-Flies {p} Step.stop s at = at
  Step-Flies {p} (Step.close_key k) s at = ground (arith, at)
  Step-Flies {p} Step.reset s at = at

  Meanwhile-Flies : {p q : Pool} → Meanwhile key p q → PoolInv p → Flies p → PoolInv q × Flies q
  Meanwhile-Flies start v at = (v, at)
  Meanwhile-Flies (then_step m s spares) v at =
      let (v', at') = Meanwhile-Flies m v at in (Step-PoolInv s v', Step-Flies s spares at')

  get_or_create-waits :
      (alive : ℕ → Bool) (e : Text) (p : Pool)
      → PoolInv p
      → Flies p
      → ((p.stopped ≡ true) × (get_or_create alive key e p ≡ (p, stopped_error)))
        ⊎ ((p.stopped ≡ false) × (get_or_create alive key e p ≡ (p, wait f)))
  unfolding get_or_create join_or_create
  get_or_create-waits alive e p v at =
      let apart = v.apart key f at in
      elim (Bool-cases p.stopped) [
        | inl over ↦ inl (over, ground (arith, over))
        | inr runs ↦ inr (runs, ground (arith, runs, apart, at))
      ]

created : {a b : SessionConfig} → create a ≡ create b → a ≡ b
created h = cc h

begin_create-began :
    (key e : Text) (p : Pool) (cfg : SessionConfig)
    → (begin_create key e p).1 ≡ create cfg
    → lookup key (begin_create key e p).0.creating ≡ some (record { endpoint_id = e; cfg = cfg })
begin_create-began key e p cfg h = elim (begin_create_cases key e p) [
  | inl full ↦ absurd (cc (h, full))
  | inr (inl full) ↦ absurd (cc (h, full))
  | inr (inr (inl missing)) ↦ absurd (cc (h, missing))
  | inr (inr (inr (c, begins, known, room, free))) ↦
      let flight : Flight = record { endpoint_id = e; cfg = create_config p e c } in
      let same : create_config p e c ≡ cfg =
        created (sym (ap (λ (r : Pool × Decision). r.1) begins) ∙ h) in
      rw begins (ground (arith, lookup-insert key key flight p.creating, text_eq_iff key key, same))
]

join_or_create-began :
    (key e : Text) (p : Pool) (cfg : SessionConfig)
    → (join_or_create key e p).1 ≡ create cfg
    → lookup key (join_or_create key e p).0.creating ≡ some (record { endpoint_id = e; cfg = cfg })
unfolding join_or_create
join_or_create-began key e p cfg h = ground (arith, begin_create-began key e p cfg, h)

get_or_create-began :
    (alive : ℕ → Bool) (key e : Text) (p : Pool) (cfg : SessionConfig)
    → (get_or_create alive key e p).1 ≡ create cfg
    → lookup key (get_or_create alive key e p).0.creating
      ≡ some (record { endpoint_id = e; cfg = cfg })
unfolding get_or_create
get_or_create-began alive key e p cfg h = ground (
  arith,
  join_or_create-began key e p cfg,
  join_or_create-began key e (remove_session key e p) cfg,
  h,
)

-- Singleflight. When GetOrCreate on a reachable pool (with a limit below 2 ^ 31) begins a create for a
-- session key, then after any sections of any goroutines, as long as that create has not ended, every
-- call of GetOrCreate for the key, with any endpoint, changes nothing and waits for that very create, or
-- is told that the pool is stopped: it starts no second process, also if the endpoint has been registered
-- anew or removed, sessions have been reaped or invalidated, or a limit is reached.
pub get_or_create_single :
    (c : PoolConfig) {p q : Pool} (alive alive' : ℕ → Bool) (key e e' : Text) (cfg : SessionConfig)
    → (new_pool c).max_global < 2 ^ 31
    → Reach (new_pool c) p
    → (get_or_create alive key e p).1 ≡ create cfg
    → Meanwhile key (get_or_create alive key e p).0 q
    → ((q.stopped ≡ true) × (get_or_create alive' key e' q ≡ (q, stopped_error)))
      ⊎ ((q.stopped ≡ false)
          × (get_or_create alive' key e' q ≡ (q, wait (record { endpoint_id = e; cfg = cfg }))))
get_or_create_single c {p} {q} alive alive' key e e' cfg small r begins m =
    let f : Flight = record { endpoint_id = e; cfg = cfg } in
    let v = get_or_create-PoolInv alive key e p (Reach-PoolInv r (new_pool-PoolInv c small)) in
    let (v', at) = Meanwhile-Flies key f m v (get_or_create-began alive key e p cfg begins) in
    get_or_create-waits key f alive' e' q v' at
