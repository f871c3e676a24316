-- ===== src/Mcp/Pool/Endpoints.antt =====
-- The counters of the endpoints. Both callers of GetOrCreate use the endpoint id as the session key
-- (deriveSessionKey of bridge.go, McpStdioPingProbe of health/probe.go).
pub mod Quiet
use orbitproxy_go.Prelude.{
  ℕ, zero, suc, ◌+◌, ◌-◌, ◌^◌, ◌%◌, ◌≤◌, ◌<◌, ◌≡◌, ◌≢◌, refl, sym, ap, ◌⊎◌, inl, inr, Bool, true,
  false, ◌&&◌, ◌||◌, ◌==◌, Text, text_eq, text_eq_iff, List, [], ◌∷◌, ◌++◌, Option, none, some,
  Dict, text_Eq, IsDict, lookup, delete, insert, length, arith, leb, ltb, if◌then◌else◌,
  lookup-delete, lookup-insert, Option-cases, Bool-cases, int32_at_least, int_at_least, inc_int,
  dec_int, int_non_positive,
}
use orbitproxy_go.Mcp.SpawnConfig.{SessionConfig, config_changed}
use orbitproxy_go.Mcp.Pool.{
  Pool, PoolConfig, Session, Flight, Decision, new_pool, count_of, release_place, sessions_of,
  other_sessions, close_endpoint_sessions, remove_session, register_endpoint, unregister_endpoint,
  begin_create, join_or_create, get_or_create, finish_create, create_config, invalidate, reap_key,
}
use orbitproxy_go.Mcp.Pool.Create.{begun, begin_create_cases}
use orbitproxy_go.Mcp.Pool.Invariant.{lookup-other_sessions}

abbrev pub present {ℓ} : {A : Type ℓ} → Option A → ℕ
present none = 0
present (some a) = 1

-- Every session stands at the key that is its endpoint.
abbrev pub Keyed : Dict Session → Type 0
Keyed [] = Unit
Keyed ((k, s) ∷ m) = (s.cfg.endpoint_id ≡ k) × Keyed m

pub Keyed-delete : (k : Text) (m : Dict Session) → Keyed m → Keyed (delete k m)
unfolding delete
Keyed-delete k [] h = tt
Keyed-delete k ((j, s) ∷ m) h = ground (arith, Keyed-delete k m h.1)

pub Keyed-insert :
    (k : Text) (s : Session) (m : Dict Session)
    → s.cfg.endpoint_id ≡ k
    → Keyed m
    → Keyed (insert k s m)
unfolding insert
Keyed-insert k s m e h = (e, Keyed-delete k m h)

pub Keyed-lookup :
    (k : Text) (s : Session) (m : Dict Session)
    → Keyed m
    → lookup k m ≡ some s
    → s.cfg.endpoint_id ≡ k
unfolding lookup
Keyed-lookup k s [] h e = cc
Keyed-lookup k s ((j, t) ∷ m) h e = ground (arith, text_eq_iff j k, Keyed-lookup k s m h.1)

pub Keyed-other_sessions : (e : Text) (m : Dict Session) → Keyed m → Keyed (other_sessions e m)
unfolding other_sessions
Keyed-other_sessions e [] h = tt
Keyed-other_sessions e ((k, s) ∷ m) h = ground (arith, Keyed-other_sessions e m h.1)

-- Closing the sessions of an endpoint takes away the one at its key and no other.
pub lookup-other_sessions-Keyed :
    (e k : Text) (m : Dict Session)
    → Keyed m
    → lookup k (other_sessions e m) ≡ (if text_eq e k then none else lookup k m)
unfolding lookup other_sessions
lookup-other_sessions-Keyed e k [] h = ground arith
lookup-other_sessions-Keyed e k ((j, s) ∷ m) h = ground (
  arith,
  lookup-other_sessions-Keyed e k m h.1,
  text_eq_iff s.cfg.endpoint_id e,
  text_eq_iff j k,
  text_eq_iff e k,
)

-- The counter of each endpoint is exact.
pub record EpInv (p : Pool) : Type 0 where
  pub keyed : Keyed p.sessions
  pub alone : (k : Text) → present (lookup k p.sessions) + present (lookup k p.creating) ≤ 1
  pub exact :
      (k : Text)
      → count_of k p.ep_count ≡ present (lookup k p.sessions) + present (lookup k p.creating)

pub count_of-delete :
    (e k : Text) (m : Dict ℕ) → count_of k (delete e m) ≡ (if text_eq e k then 0 else count_of k m)
unfolding count_of
count_of-delete e k m = ground (arith, lookup-delete e k m)

pub count_of-insert :
    (e k : Text) (n : ℕ) (m : Dict ℕ)
    → count_of k (insert e n m) ≡ (if text_eq e k then n else count_of k m)
unfolding count_of
count_of-insert e k n m = ground (arith, lookup-insert e k n m)

pub count_of-release_place :
    (e k : Text) (m : Dict ℕ)
    → count_of e m ≡ 1
    → count_of k (release_place e m) ≡ (if text_eq e k then 0 else count_of k m)
unfolding release_place
count_of-release_place e k m h = ground (arith, count_of-delete e k m, ap (λ n. dec_int n) h)

pub remove_session-EpInv : (key : Text) (p : Pool) → EpInv p → EpInv (remove_session key key p)
unfolding remove_session
remove_session-EpInv key p v = elim (Option-cases (lookup key p.sessions)) [
  | inl missing ↦ rw (missing, remove_session) v
  | inr (s, at) ↦
      let one : count_of key p.ep_count ≡ 1 = ground (arith, v.exact key, v.alone key) in
      rw (at, remove_session)
        (record {
          keyed = Keyed-delete key p.sessions v.keyed;
          alone = λ k. ground (arith, lookup-delete key k p.sessions, v.alone k);
          exact = λ k. ground (
            arith,
            count_of-release_place key k p.ep_count one,
            lookup-delete key k p.sessions,
            text_eq_iff key k,
            v.exact k,
            v.alone key,
          );
        })
]
