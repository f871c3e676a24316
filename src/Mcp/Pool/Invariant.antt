-- ===== src/Mcp/Pool/Invariant.antt =====
-- The well-formedness of the pool: its maps, and a global counter that counts every process that is
-- there, is being started or is being closed.
use orbitproxy_go.Prelude.{
  ℕ, suc, ◌+◌, ◌^◌, ◌≤◌, ◌<◌, ◌≡◌, refl, ap, inl, inr, Text, [], ◌∷◌, none, some, Dict, text_Eq,
  IsDict, lookup, delete, insert, length, arith, length-append, lookup-delete, delete-IsDict,
  length-delete, Option-cases, Bool-cases,
}
use orbitproxy_go.Mcp.SpawnConfig.{SessionConfig, config_changed}
use orbitproxy_go.Mcp.Pool.{
  Pool, Session, Flight, sessions_of, other_sessions, close_endpoint_sessions, remove_session,
  register_endpoint, unregister_endpoint, invalidate, close_all_key, reap_key,
}

-- The processes that a pool answers for.
abbrev pub processes : Pool → ℕ
processes p = length p.sessions + length p.creating + length p.closing

-- No key has a session and a create in flight.
abbrev pub Apart : Pool → Type 0
Apart p = (k : Text) (f : Flight) → lookup k p.creating ≡ some f → lookup k p.sessions ≡ none

pub record PoolInv (p : Pool) : Type 0 where
  pub sessions_keys : IsDict p.sessions
  pub creating_keys : IsDict p.creating
  pub apart : Apart p
  pub counted : p.global_count ≡ processes p
  pub bounded : processes p ≤ p.max_global
  pub limit_small : p.max_global < 2 ^ 31

pub lookup-other_sessions :
    (e k : Text) (m : Dict Session) → lookup k m ≡ none → lookup k (other_sessions e m) ≡ none
unfolding lookup other_sessions
lookup-other_sessions e k [] h = refl
lookup-other_sessions e k ((j, s) ∷ m) h = ground (arith, lookup-other_sessions e k m)

other_sessions-IsDict : (e : Text) (m : Dict Session) → IsDict m → IsDict (other_sessions e m)
unfolding other_sessions
other_sessions-IsDict e [] d = tt
other_sessions-IsDict e ((k, s) ∷ m) d =
    ground (arith, other_sessions-IsDict e m d.1, lookup-other_sessions e k m d.0)

length-other_sessions :
    (e : Text) (m : Dict Session)
    → length (sessions_of e m) + length (other_sessions e m) ≡ length m
unfolding sessions_of other_sessions
length-other_sessions e [] = refl
length-other_sessions e ((k, s) ∷ m) = ground (arith, length-other_sessions e m)

pub close_endpoint_sessions-PoolInv :
    (e : Text) (p : Pool) → PoolInv p → PoolInv (close_endpoint_sessions e p)
unfolding close_endpoint_sessions
close_endpoint_sessions-PoolInv e p v = record {
  sessions_keys = other_sessions-IsDict e p.sessions v.sessions_keys;
  creating_keys = v.creating_keys;
  apart = λ k f h. lookup-other_sessions e k p.sessions (v.apart k f h);
  counted = omega (
    arith,
    v.counted,
    length-other_sessions e p.sessions,
    length-append (sessions_of e p.sessions) p.closing,
  );
  bounded = omega (
    arith,
    v.bounded,
    length-other_sessions e p.sessions,
    length-append (sessions_of e p.sessions) p.closing,
  );
  limit_small = v.limit_small;
}

-- A session leaves the map, its place is given back at once or handed to a closing.
module _ (key : Text) (p : Pool) (s : Session) (v : PoolInv p)
    (at : lookup key p.sessions ≡ some s) where
  drop_apart :
      (k : Text) (f : Flight)
      → lookup k p.creating ≡ some f
      → lookup k (delete key p.sessions) ≡ none
  drop_apart k f h = rw lookup-delete (ground (arith, v.apart k f h))

  drop_length : suc (length (delete key p.sessions)) ≡ length p.sessions
  drop_length = length-delete key s p.sessions v.sessions_keys at

  -- whichever way the place is given back
  pub drop-PoolInv :
      (q : Pool)
      → q.sessions ≡ delete key p.sessions
      → q.creating ≡ p.creating
      → q.max_global ≡ p.max_global
      → q.global_count ≡ processes q
      → length q.closing ≤ suc (length p.closing)
      → PoolInv q
  drop-PoolInv q e₁ e₂ e₃ e₄ c = record {
    sessions_keys = rw e₁ (delete-IsDict key p.sessions v.sessions_keys);
    creating_keys = rw e₂ v.creating_keys;
    apart = λ k f h. rw e₁ (drop_apart k f (rw e₂ at h));
    counted = e₄;
    bounded = omega (arith, v.bounded, drop_length, ap length e₁, ap length e₂);
    limit_small = rw e₃ v.limit_small;
  }

pub remove_session-PoolInv :
    (key e : Text) (p : Pool) → PoolInv p → PoolInv (remove_session key e p)
unfolding remove_session
remove_session-PoolInv key e p v = elim (Option-cases (lookup key p.sessions)) [
  | inl missing ↦ rw (missing, remove_session) v
  | inr (s, at) ↦
      rw (at, remove_session)
        (drop-PoolInv key p s v at _ refl refl refl
          (omega (arith, v.counted, v.bounded, v.limit_small, drop_length key p s v at))
          (omega arith))
]

pub reap_key-PoolInv : (key : Text) (p : Pool) → PoolInv p → PoolInv (reap_key key p)
unfolding reap_key
reap_key-PoolInv key p v = elim (Option-cases (lookup key p.sessions)) [
  | inl missing ↦ rw (missing, reap_key) v
  | inr (s, at) ↦
      rw (at, reap_key)
        (drop-PoolInv key p s v at _ refl refl refl
          (omega (arith, v.counted, v.bounded, v.limit_small, drop_length key p s v at))
          (omega arith))
]

pub close_all_key-PoolInv : (key : Text) (p : Pool) → PoolInv p → PoolInv (close_all_key key p)
unfolding close_all_key
close_all_key-PoolInv key p v = elim (Option-cases (lookup key p.sessions)) [
  | inl missing ↦ rw (missing, close_all_key) v
  | inr (s, at) ↦
      rw (at, close_all_key)
        (drop-PoolInv key p s v at _ refl refl refl
          (omega (arith, v.counted, drop_length key p s v at)) (omega arith))
]

pub invalidate-PoolInv : (key : Text) (p : Pool) → PoolInv p → PoolInv (invalidate key p)
unfolding invalidate
invalidate-PoolInv key p v = elim (Option-cases (lookup key p.sessions)) [
  | inl missing ↦ rw (missing, invalidate) v
  | inr (s, at) ↦ rw (at, invalidate) (remove_session-PoolInv key s.cfg.endpoint_id p v)
]

-- The invariant reads neither the configurations nor the counters of the endpoints.
pub same-PoolInv :
    (p q : Pool)
    → q.sessions ≡ p.sessions
    → q.creating ≡ p.creating
    → q.closing ≡ p.closing
    → q.max_global ≡ p.max_global
    → q.global_count ≡ p.global_count
    → PoolInv p
    → PoolInv q
same-PoolInv p q e₁ e₂ e₃ e₄ e₅ v = record {
  sessions_keys = rw e₁ v.sessions_keys;
  creating_keys = rw e₂ v.creating_keys;
  apart = λ k f h. rw e₁ (v.apart k f (rw e₂ at h));
  counted = omega (arith, v.counted, ap length e₁, ap length e₂, ap length e₃);
  bounded = omega (arith, v.bounded, ap length e₁, ap length e₂, ap length e₃);
  limit_small = rw e₄ v.limit_small;
}

pub register_endpoint-PoolInv :
    (e : Text) (cfg : SessionConfig) (p : Pool) → PoolInv p → PoolInv (register_endpoint e cfg p)
unfolding register_endpoint
register_endpoint-PoolInv e cfg p v =
    let q : Pool = record p { configs = insert e cfg p.configs } in
    let same : PoolInv q = same-PoolInv p q refl refl refl refl refl v in
    elim (Option-cases (lookup e p.configs)) [
      | inl new ↦ rw (new, register_endpoint) same
      | inr (old, was) ↦ elim (Bool-cases (config_changed old.spawn cfg.spawn)) [
        | inl changed ↦
            rw (was, register_endpoint) (rw changed (close_endpoint_sessions-PoolInv e q same))
        | inr kept ↦ rw (was, register_endpoint) (rw kept same)
      ]
    ]

pub unregister_endpoint-PoolInv :
    (e : Text) (p : Pool) → PoolInv p → PoolInv (unregister_endpoint e p)
unfolding unregister_endpoint
unregister_endpoint-PoolInv e p v =
    close_endpoint_sessions-PoolInv e _ (same-PoolInv p _ refl refl refl refl refl v)
