-- ===== src/Mcp/Pool/Steps.antt =====
-- The pool with any interleaving of its critical sections: what every reachable pool satisfies.
use orbitproxy_go.Prelude.{
  ℕ, ◌+◌, ◌^◌, ◌≤◌, ◌<◌, ◌≡◌, refl, ap, Bool, Text, List, ◌∷◌, ◌++◌, Option, some, text_Eq, lookup,
  length, arith, length-append,
}
use orbitproxy_go.Mcp.SpawnConfig.{SessionConfig}
use orbitproxy_go.Mcp.Pool.{
  Pool, PoolConfig, Session, Flight, new_pool, register_endpoint, unregister_endpoint,
  get_or_create, finish_create, invalidate, close_done, stop_pool, close_all_key, reset_counts,
  reap_key,
}
use orbitproxy_go.Mcp.Pool.Invariant.{
  PoolInv, register_endpoint-PoolInv, unregister_endpoint-PoolInv, invalidate-PoolInv,
  reap_key-PoolInv, close_all_key-PoolInv, same-PoolInv,
}
use orbitproxy_go.Mcp.Pool.Create.{get_or_create-PoolInv, finish_create-PoolInv}

-- One section of one goroutine. A create ends once, with any outcome, while it is in flight; a Close
-- that gives its place back ends once.
pub data Step (p : Pool) : Pool → Type 0 where
  register : (e : Text) (cfg : SessionConfig) → Step p (register_endpoint e cfg p)
  unregister : (e : Text) → Step p (unregister_endpoint e p)
  get : (alive : ℕ → Bool) (key e : Text) → Step p (get_or_create alive key e p).0
  finish :
      (key : Text) (f : Flight) (outcome : Option Session)
      → lookup key p.creating ≡ some f
      → Step p (finish_create key f.endpoint_id outcome p)
  invalidates : (key : Text) → Step p (invalidate key p)
  reap : (key : Text) → Step p (reap_key key p)
  closed :
      (before after : List Session) (s : Session)
      → p.closing ≡ before ++ s ∷ after
      → Step p (close_done before after p)
  stop : Step p (stop_pool p)
  close_key : (key : Text) → Step p (close_all_key key p)
  reset : Step p (reset_counts p)

pub data Reach (p : Pool) : Pool → Type 0 where
  here : Reach p p
  next : {q r : Pool} → Reach p q → Step q r → Reach p r

close_done-PoolInv :
    (before after : List Session) (s : Session) (p : Pool)
    → PoolInv p
    → p.closing ≡ before ++ s ∷ after
    → PoolInv (close_done before after p)
unfolding close_done
close_done-PoolInv before after s p v e =
    let old = length-append before (s ∷ after) in
    let new = length-append before after in
    record {
      sessions_keys = v.sessions_keys;
      creating_keys = v.creating_keys;
      apart = v.apart;
      counted = omega (arith, v.counted, v.bounded, v.limit_small, ap length e, old, new);
      bounded = omega (arith, v.bounded, ap length e, old, new);
      limit_small = v.limit_small;
    }

-- Every section of every operation keeps the pool well formed.
pub Step-PoolInv : {p q : Pool} → Step p q → PoolInv p → PoolInv q
Step-PoolInv {p} (register e cfg) v = register_endpoint-PoolInv e cfg p v
Step-PoolInv {p} (unregister e) v = unregister_endpoint-PoolInv e p v
Step-PoolInv {p} (get alive key e) v = get_or_create-PoolInv alive key e p v
Step-PoolInv {p} (finish key f outcome at) v =
    finish_create-PoolInv key f.endpoint_id outcome p f v at
Step-PoolInv {p} (invalidates key) v = invalidate-PoolInv key p v
Step-PoolInv {p} (reap key) v = reap_key-PoolInv key p v
Step-PoolInv {p} (closed before after s e) v = close_done-PoolInv before after s p v e
Step-PoolInv {p} stop v = unfold stop_pool in same-PoolInv p _ refl refl refl refl refl v
Step-PoolInv {p} (close_key key) v = close_all_key-PoolInv key p v
Step-PoolInv {p} reset v = unfold reset_counts in same-PoolInv p _ refl refl refl refl refl v

pub Reach-PoolInv : {p q : Pool} → Reach p q → PoolInv p → PoolInv q
Reach-PoolInv here v = v
Reach-PoolInv (next r s) v = Step-PoolInv s (Reach-PoolInv r v)

pub new_pool-PoolInv : (c : PoolConfig) → (new_pool c).max_global < 2 ^ 31 → PoolInv (new_pool c)
unfolding new_pool lookup
new_pool-PoolInv c h = record {
  sessions_keys = tt;
  creating_keys = tt;
  apart = λ k f h. refl;
  counted = refl;
  bounded = omega arith;
  limit_small = h;
}

-- In every history of a new pool with a limit below 2 ^ 31, the int32 counter of the processes is
-- exact: it counts the sessions, the creates in flight and the sessions being closed, and these
-- together never exceed the global limit of the pool, so the counter never wraps around.
pub global_count-exact :
    (c : PoolConfig) (p : Pool)
    → (new_pool c).max_global < 2 ^ 31
    → Reach (new_pool c) p
    → (p.global_count ≡ length p.sessions + length p.creating + length p.closing)
      × (length p.sessions + length p.creating + length p.closing ≤ p.max_global)
global_count-exact c p h r =
    let v = Reach-PoolInv r (new_pool-PoolInv c h) in (v.counted, v.bounded)
