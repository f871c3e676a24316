-- ===== src/Mcp/Pool/Races.antt =====
-- What the pool decides, and what happens when an endpoint changes or the pool is closed while a
-- create is in flight.
use orbitproxy_go.Prelude.{
  ℕ, suc, ◌+◌, ◌-◌, ◌^◌, ◌≡◌, refl, ap, ◌∙◌, Bool, true, false, Text, text_eq_refl, List, [], ◌∷◌,
  Option, none, some, Dict, text_Eq, lookup, delete, arith, if◌then◌else◌, lookup-delete,
  lookup-insert, IsDict, length, delete_fresh, dec_int,
}
use orbitproxy_go.Mcp.SpawnConfig.{SessionConfig, config_changed}
use orbitproxy_go.Mcp.Pool.{
  Pool, Session, Flight, stopped_error, found, count_of, close_endpoint_sessions, register_endpoint,
  unregister_endpoint, get_or_create, finish_create, stop_pool, close_all_key, close_all_keys,
  close_all, reset_counts, keys_of,
}
use orbitproxy_go.Mcp.Pool.Endpoints.{count_of-delete, count_of-insert}

lookup-finish_create :
    (key e : Text) (s : Session) (p : Pool)
    → lookup key (finish_create key e (some s) p).sessions ≡ some s
unfolding finish_create
lookup-finish_create key e s p = rw lookup-insert (rw text_eq_refl)

stopped-finish_create :
    (key e : Text) (o : Option Session) (p : Pool) → (finish_create key e o p).stopped ≡ p.stopped
unfolding finish_create
stopped-finish_create key e o p = ground arith

found_at :
    (alive : ℕ → Bool) (key e : Text) (p : Pool) (s : Session)
    → p.stopped ≡ false
    → lookup key p.sessions ≡ some s
    → alive s.id ≡ true
    → get_or_create alive key e p ≡ (p, found s)
unfolding get_or_create
found_at alive key e p s runs at live = ground arith

-- UnregisterEndpoint while a create for the endpoint is in flight does not reach that create: when it
-- succeeds, the endpoint has no configuration any more, and yet GetOrCreate goes on to hand out its
-- session while the process lives.
pub unregister_misses_flight :
    (alive : ℕ → Bool) (key e : Text) (f : Flight) (s : Session) (p : Pool)
    → p.stopped ≡ false
    → lookup key p.creating ≡ some f
    → alive s.id ≡ true
    → let q = finish_create key e (some s) (unregister_endpoint e p) in
      (lookup e q.configs ≡ none) × (get_or_create alive key e q ≡ (q, found s))
unfolding unregister_endpoint close_endpoint_sessions finish_create
unregister_misses_flight alive key e f s p runs flying live = (
  rw lookup-delete (rw text_eq_refl),
  found_at alive key e _ s runs (rw lookup-insert (rw text_eq_refl)) live,
)

-- The failure of a create that was in flight over UnregisterEndpoint takes the counter of its endpoint,
-- which was deleted, from 0 to -1, and leaves it there.
pub unregister_then_failure :
    (key e : Text) (p : Pool)
    → count_of e (finish_create key e none (unregister_endpoint e p)).ep_count ≡ 2 ^ 64 - 1
unfolding unregister_endpoint close_endpoint_sessions finish_create
unregister_then_failure key e p =
    let zero_count : count_of e (delete e p.ep_count) ≡ 0 =
      count_of-delete e e p.ep_count
      ∙ ap (λ b. if b then 0 else count_of e p.ep_count) (text_eq_refl e) in
    let below : dec_int (count_of e (delete e p.ep_count)) ≡ 2 ^ 64 - 1 =
      ap (λ n. dec_int n) zero_count in
    rw (below, finish_create, unregister_endpoint, close_endpoint_sessions)
      (count_of-insert e e (2 ^ 64 - 1) (delete e p.ep_count)
        ∙ ap (λ b. if b then 2 ^ 64 - 1 else count_of e (delete e p.ep_count)) (text_eq_refl e))

-- RegisterEndpoint with a changed command, arguments, directory or environment does not reach a create
-- that is in flight either: its session, started with the old configuration, is handed out afterwards.
pub register_misses_flight :
    (alive : ℕ → Bool) (key e : Text) (f : Flight) (cfg : SessionConfig) (s : Session) (p : Pool)
    → p.stopped ≡ false
    → lookup key p.creating ≡ some f
    → config_changed f.cfg.spawn cfg.spawn ≡ true
    → s.cfg ≡ f.cfg
    → alive s.id ≡ true
    → let q = finish_create key e (some s) (register_endpoint e cfg p) in
      (lookup e q.configs ≡ some cfg)
      × (get_or_create alive key e q ≡ (q, found s))
      × (config_changed s.cfg.spawn cfg.spawn ≡ true)
unfolding register_endpoint close_endpoint_sessions finish_create
register_misses_flight alive key e f cfg s p runs flying changed own live =
    let q = finish_create key e (some s) (register_endpoint e cfg p) in
    (
      ground (arith, lookup-insert e e cfg p.configs, text_eq_refl e),
      found_at alive key e q s (ground arith)
          (lookup-finish_create key e s (register_endpoint e cfg p)) live,
      rw own changed,
    )

stopped-close_all_keys : (ks : List Text) (p : Pool) → (close_all_keys ks p).stopped ≡ p.stopped
unfolding close_all_keys close_all_key
stopped-close_all_keys [] p = refl
stopped-close_all_keys (k ∷ ks) p = stopped-close_all_keys ks (close_all_key k p) ∙ ground arith

stopped-close_all : (p : Pool) → (close_all p).stopped ≡ true
unfolding close_all reset_counts stop_pool
stopped-close_all p = stopped-close_all_keys (keys_of p.sessions) _

close_all_keys-sessions :
    (m : Dict Session) (p : Pool)
    → p.sessions ≡ m
    → IsDict m
    → ((close_all_keys (keys_of m) p).sessions ≡ [])
      × (length (close_all_keys (keys_of m) p).closing ≡ length m + length p.closing)
unfolding close_all_keys keys_of close_all_key
close_all_keys-sessions [] p e d = (e, omega arith)
close_all_keys-sessions ((k, s) ∷ m) p e d =
    let at : lookup k p.sessions ≡ some s = unfold lookup in rw e (rw text_eq_refl) in
    let rest : delete k p.sessions ≡ m =
      unfold delete in rw e (rw text_eq_refl (delete_fresh k m d.0)) in
    let p' : Pool = record p { sessions = delete k p.sessions; closing = s ∷ p.closing } in
    let both = close_all_keys-sessions m p' rest d.1 in
    let count : length m + suc (length p.closing) ≡ suc (length m) + length p.closing =
      omega arith in
    rw (at, close_all_key, close_all_keys) (both.0, both.1 ∙ count)

-- CloseAll with nobody between its sections empties the session map, hands every session to a Close
-- that gives its place back, clears the counters of the endpoints and refuses all later calls.
pub close_all_lem :
    (alive : ℕ → Bool) (key e : Text) (p : Pool)
    → IsDict p.sessions
    → let q = close_all p in
      (q.sessions ≡ [])
      × (length q.closing ≡ length p.sessions + length p.closing)
      × (q.ep_count ≡ [])
      × (get_or_create alive key e q ≡ (q, stopped_error))
unfolding close_all reset_counts stop_pool get_or_create
close_all_lem alive key e p d =
    let both = close_all_keys-sessions p.sessions (record p { stopped = true }) refl d in
    (
      both.0,
      both.1,
      refl,
      ground (arith, stopped-close_all_keys (keys_of p.sessions) (record p { stopped = true })),
    )

-- A create that is in flight over CloseAll and succeeds after it leaves its session, a live process,
-- in the map of the stopped pool: no call for any key returns it any more.
pub close_all_misses_flight :
    (alive : ℕ → Bool) (key e j d : Text) (f : Flight) (s : Session) (p : Pool)
    → lookup key p.creating ≡ some f
    → let q = finish_create key e (some s) (close_all p) in
      (lookup key q.sessions ≡ some s) × (get_or_create alive j d q ≡ (q, stopped_error))
unfolding get_or_create
close_all_misses_flight alive key e j d f s p flying = (
  lookup-finish_create key e s (close_all p),
  ground (arith, stopped-finish_create key e (some s) (close_all p), stopped-close_all p),
)
