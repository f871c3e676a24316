-- ===== src/Mcp/Pool/Endpoints/Quiet.antt =====
-- The counters of the endpoints are exact in every history in which no endpoint is registered anew or
-- unregistered while a create for it is in flight.
use orbitproxy_go.Prelude.{
  ℕ, ◌+◌, ◌≤◌, ◌≡◌, refl, ap, inl, inr, Bool, Text, text_eq_iff, Option, none, some, Dict, text_Eq,
  lookup, delete, insert, arith, lookup-delete, lookup-insert, Option-cases, Bool-cases, inc_int,
  dec_int,
}
use orbitproxy_go.Mcp.SpawnConfig.{SessionConfig, config_changed}
use orbitproxy_go.Mcp.Pool.{
  Pool, PoolConfig, Session, Flight, new_pool, count_of, close_endpoint_sessions, remove_session,
  register_endpoint, unregister_endpoint, join_or_create, get_or_create, finish_create,
  create_config, invalidate, reap_key,
}
use orbitproxy_go.Mcp.Pool.Create.{begun, begin_create_cases, lookup-remove_session}
use orbitproxy_go.Mcp.Pool.Endpoints.{
  EpInv, present, Keyed, Keyed-insert, Keyed-lookup, Keyed-other_sessions,
  lookup-other_sessions-Keyed, count_of-delete, count_of-insert, remove_session-EpInv,
}

close_endpoint_sessions-EpInv :
    (e : Text) (p : Pool)
    → lookup e p.creating ≡ none
    → EpInv p
    → EpInv (close_endpoint_sessions e p)
unfolding close_endpoint_sessions
close_endpoint_sessions-EpInv e p quiet v = record {
  keyed = Keyed-other_sessions e p.sessions v.keyed;
  alone = λ k. ground (arith, lookup-other_sessions-Keyed e k p.sessions v.keyed, v.alone k);
  exact = λ k. ground (
    arith,
    lookup-other_sessions-Keyed e k p.sessions v.keyed,
    count_of-delete e k p.ep_count,
    text_eq_iff e k,
    v.exact k,
  );
}

with_configs : (p : Pool) (cs : Dict SessionConfig) → EpInv p → EpInv (record p { configs = cs })
with_configs p cs v = record { keyed = v.keyed; alone = v.alone; exact = v.exact }

register_endpoint-EpInv :
    (e : Text) (cfg : SessionConfig) (p : Pool)
    → lookup e p.creating ≡ none
    → EpInv p
    → EpInv (register_endpoint e cfg p)
unfolding register_endpoint
register_endpoint-EpInv e cfg p quiet v =
    let q : Pool = record p { configs = insert e cfg p.configs } in
    let same : EpInv q = with_configs p (insert e cfg p.configs) v in
    elim (Option-cases (lookup e p.configs)) [
      | inl new ↦ rw (new, register_endpoint) same
      | inr (old, was) ↦ elim (Bool-cases (config_changed old.spawn cfg.spawn)) [
        | inl changed ↦
            rw (was, register_endpoint) (rw changed (close_endpoint_sessions-EpInv e q quiet same))
        | inr kept ↦ rw (was, register_endpoint) (rw kept same)
      ]
    ]

unregister_endpoint-EpInv :
    (e : Text) (p : Pool) → lookup e p.creating ≡ none → EpInv p → EpInv (unregister_endpoint e p)
unfolding unregister_endpoint
unregister_endpoint-EpInv e p quiet v =
    close_endpoint_sessions-EpInv e _ quiet (with_configs p (delete e p.configs) v)

begun-EpInv :
    (e : Text) (cfg : SessionConfig) (p : Pool)
    → lookup e p.sessions ≡ none
    → lookup e p.creating ≡ none
    → EpInv p
    → EpInv (begun e e cfg p)
begun-EpInv e cfg p no_session no_flight v =
    let flight : Flight = record { endpoint_id = e; cfg = create_config p e cfg } in
    let zero_count : count_of e p.ep_count ≡ 0 = ground (arith, v.exact e) in
    record {
      keyed = v.keyed;
      alone = λ k. ground (arith, lookup-insert e k flight p.creating, text_eq_iff e k, v.alone k);
      exact = λ k. ground (
        arith,
        lookup-insert e k flight p.creating,
        count_of-insert e k (inc_int (count_of e p.ep_count)) p.ep_count,
        ap (λ n. inc_int n) zero_count,
        text_eq_iff e k,
        v.exact k,
      );
    }

join_or_create-EpInv :
    (e : Text) (p : Pool) → lookup e p.sessions ≡ none → EpInv p → EpInv (join_or_create e e p).0
unfolding join_or_create
join_or_create-EpInv e p no_session v = elim (Option-cases (lookup e p.creating)) [
  | inr (flight, at) ↦ rw (at, join_or_create) v
  | inl no_flight ↦
      rw (no_flight, join_or_create)
        (elim (begin_create_cases e e p) [
          | inl h ↦ rw h v
          | inr (inl h) ↦ rw h v
          | inr (inr (inl h)) ↦ rw h v
          | inr (inr (inr (cfg, h, at, room, free))) ↦
              rw h (begun-EpInv e cfg p no_session no_flight v)
        ])
]

get_or_create-EpInv :
    (alive : ℕ → Bool) (e : Text) (p : Pool) → EpInv p → EpInv (get_or_create alive e e p).0
unfolding get_or_create
get_or_create-EpInv alive e p v = elim (Bool-cases p.stopped) [
  | inl stop ↦ simp stop v
  | inr runs ↦ elim (Option-cases (lookup e p.sessions)) [
    | inl missing ↦ simp runs (rw (missing, get_or_create) (join_or_create-EpInv e p missing v))
    | inr (s, at) ↦ elim (Bool-cases (alive s.id)) [
      | inl live ↦ simp runs (rw (at, get_or_create) (rw live v))
      | inr dead ↦ simp runs (
          rw (at, get_or_create)
            (rw dead (
              join_or_create-EpInv e (remove_session e e p) (lookup-remove_session e e p)
                (remove_session-EpInv e p v))))
    ]
  ]
]

finish_create-EpInv :
    (e : Text) (outcome : Option Session) (p : Pool) (f : Flight)
    → ((s : Session) → outcome ≡ some s → s.cfg.endpoint_id ≡ e)
    → lookup e p.creating ≡ some f
    → EpInv p
    → EpInv (finish_create e e outcome p)
unfolding finish_create
finish_create-EpInv e none p f own at v =
    let one : count_of e p.ep_count ≡ 1 = ground (arith, v.exact e, v.alone e) in
    record {
      keyed = v.keyed;
      alone = λ k. ground (arith, lookup-delete e k p.creating, v.alone k);
      exact = λ k. ground (
        arith,
        ap (λ n. dec_int n) one,
        lookup-delete e k p.creating,
        count_of-delete e k p.ep_count,
        text_eq_iff e k,
        v.exact k,
        v.alone e,
      );
    }
finish_create-EpInv e (some s) p f own at v = record {
  keyed = Keyed-insert e s p.sessions (own s refl) v.keyed;
  alone =
      λ k. ground (arith, lookup-delete e k p.creating, lookup-insert e k s p.sessions, v.alone k);
  exact = λ k. ground (
    arith,
    lookup-delete e k p.creating,
    lookup-insert e k s p.sessions,
    text_eq_iff e k,
    v.exact k,
    v.alone e,
  );
}

invalidate-EpInv : (key : Text) (p : Pool) → EpInv p → EpInv (invalidate key p)
unfolding invalidate
invalidate-EpInv key p v = elim (Option-cases (lookup key p.sessions)) [
  | inl missing ↦ rw (missing, invalidate) v
  | inr (s, at) ↦
      rw (at, invalidate)
        (rw (Keyed-lookup key s p.sessions v.keyed at) (remove_session-EpInv key p v))
]

reap_key-remove_session :
    (key : Text) (p : Pool) → Keyed p.sessions → reap_key key p ≡ remove_session key key p
unfolding reap_key remove_session
reap_key-remove_session key p h = elim (Option-cases (lookup key p.sessions)) [
  | inl missing ↦ rw (missing, reap_key, remove_session)
  | inr (s, at) ↦ rw (at, reap_key, remove_session) (rw (Keyed-lookup key s p.sessions h at))
]

-- The steps of a pool that is not being stopped, with session keys that are endpoint ids.
pub data QuietStep (p : Pool) : Pool → Type 0 where
  register :
      (e : Text) (cfg : SessionConfig)
      → lookup e p.creating ≡ none
      → QuietStep p (register_endpoint e cfg p)
  unregister : (e : Text) → lookup e p.creating ≡ none → QuietStep p (unregister_endpoint e p)
  get : (alive : ℕ → Bool) (e : Text) → QuietStep p (get_or_create alive e e p).0
  finish :
      (e : Text) (f : Flight) (outcome : Option Session)
      → lookup e p.creating ≡ some f
      → ((s : Session) → outcome ≡ some s → s.cfg.endpoint_id ≡ e)
      → QuietStep p (finish_create e e outcome p)
  invalidates : (key : Text) → QuietStep p (invalidate key p)
  reap : (key : Text) → QuietStep p (reap_key key p)

pub data QuietReach (p : Pool) : Pool → Type 0 where
  here : QuietReach p p
  next : {q r : Pool} → QuietReach p q → QuietStep q r → QuietReach p r

QuietStep-EpInv : {p q : Pool} → QuietStep p q → EpInv p → EpInv q
QuietStep-EpInv {p} (register e cfg quiet) v = register_endpoint-EpInv e cfg p quiet v
QuietStep-EpInv {p} (unregister e quiet) v = unregister_endpoint-EpInv e p quiet v
QuietStep-EpInv {p} (get alive e) v = get_or_create-EpInv alive e p v
QuietStep-EpInv {p} (finish e f outcome at own) v = finish_create-EpInv e outcome p f own at v
QuietStep-EpInv {p} (invalidates key) v = invalidate-EpInv key p v
QuietStep-EpInv {p} (reap key) v =
    rw (reap_key-remove_session key p v.keyed) (remove_session-EpInv key p v)

QuietReach-EpInv : {p q : Pool} → QuietReach p q → EpInv p → EpInv q
QuietReach-EpInv here v = v
QuietReach-EpInv (next r s) v = QuietStep-EpInv s (QuietReach-EpInv r v)

new_pool-EpInv : (c : PoolConfig) → EpInv (new_pool c)
unfolding new_pool lookup count_of
new_pool-EpInv c = record { keyed = tt; alone = λ k. omega arith; exact = λ k. refl }

-- With the endpoint id as session key, in every history of a new pool in which no endpoint is
-- registered or unregistered while a create for it is in flight, and which has not come to CloseAll:
-- an endpoint has a session or a create in flight and never both, and its counter is 1 exactly then
-- and 0 otherwise.
pub ep_count-exact :
    (c : PoolConfig) (p : Pool) (e : Text)
    → QuietReach (new_pool c) p
    → (count_of e p.ep_count ≡ present (lookup e p.sessions) + present (lookup e p.creating))
      × (present (lookup e p.sessions) + present (lookup e p.creating) ≤ 1)
ep_count-exact c p e r = let v = QuietReach-EpInv r (new_pool-EpInv c) in (v.exact e, v.alone e)
