-- ===== src/Endpoint/Manager/Synced.antt =====
-- internal/endpoint: what each message does for one endpoint, in the manager and in the pool of child
-- processes.
use orbitproxy_go.Prelude.{
  ℕ, ◌≡◌, refl, ap, ◌∙◌, inl, inr, Bool, true, false, Text, text_eq, text_eq_iff, text_Eq, List, [],
  ◌∷◌, Option, none, some, lookup, insert, delete, arith, if◌then◌else◌, lookup-insert,
  lookup-delete, Option-cases, Bool-cases,
}
use orbitproxy_go.Mcp.SpawnConfig.{SpawnConfig, SessionConfig, config_changed}
use orbitproxy_go.Mcp.Payload.{ExecPayload}
use orbitproxy_go.Mcp.Pool
use orbitproxy_go.Mcp.Pool.{
  PoolConfig, new_pool, register_endpoint, unregister_endpoint, close_endpoint_sessions,
}
use orbitproxy_go.Endpoint.Delivery.{Config}
use orbitproxy_go.Endpoint.Runtime.{Runtime, new_runtime, update, set_bridge}
use orbitproxy_go.Endpoint.Manager.{
  Manager, signal, get, session_config, sync_pool, sync_bridge, is_some, spawn_of, upsert, remove,
  runtime_for,
}

-- The configuration of an endpoint in the manager.
abbrev pub cfg_of : Option Runtime → Option Config
cfg_of none = none
cfg_of (some rt) = some rt.cfg

abbrev pub bridge_of : Option Runtime → Bool
bridge_of none = false
bridge_of (some rt) = rt.bridge

-- What the pool holds for an endpoint.
abbrev pub registered : Text → Option Pool.Pool → Option SessionConfig
registered id none = none
registered id (some p) = lookup id p.configs

sync_bridge-cfg :
    (b : Bool) (p : Option Pool.Pool) (rt : Runtime) → (sync_bridge b p rt).cfg ≡ rt.cfg
unfolding sync_bridge set_bridge
sync_bridge-cfg b none rt = refl
sync_bridge-cfg b (some p) rt = refl

sync_bridge-bridge :
    (b : Bool) (p : Option Pool.Pool) (q : Pool.Pool) (rt : Runtime)
    → p ≡ some q
    → (sync_bridge b p rt).bridge ≡ b
unfolding sync_bridge set_bridge
sync_bridge-bridge b none q rt h = cc
sync_bridge-bridge b (some p) q rt h = refl

runtime_for-cfg : (cfg : Config) (m : Manager) → (runtime_for cfg m).cfg ≡ cfg
unfolding runtime_for update new_runtime
runtime_for-cfg cfg m = elim (Option-cases (lookup cfg.endpoint_id m.by_id)) [
  | inl absent ↦ rw (absent, runtime_for) refl
  | inr (rt, at) ↦ rw (at, runtime_for) refl
]

register_endpoint-configs :
    (e : Text) (cfg : SessionConfig) (p : Pool.Pool)
    → (register_endpoint e cfg p).configs ≡ insert e cfg p.configs
unfolding register_endpoint close_endpoint_sessions
register_endpoint-configs e cfg p = elim (Option-cases (lookup e p.configs)) [
  | inl new ↦ rw (new, register_endpoint) refl
  | inr (old, was) ↦ elim (Bool-cases (config_changed old.spawn cfg.spawn)) [
    | inl changed ↦ rw (was, register_endpoint) (rw changed refl)
    | inr same ↦ rw (was, register_endpoint) (rw same refl)
  ]
]

unregister_endpoint-configs :
    (e : Text) (p : Pool.Pool) → (unregister_endpoint e p).configs ≡ delete e p.configs
unfolding unregister_endpoint close_endpoint_sessions
unregister_endpoint-configs e p = refl

-- What the pool is to hold.
abbrev pub session_of : Text → Option SpawnConfig → Option SessionConfig
session_of id none = none
session_of id (some spawn) = some (session_config id spawn)

sync_pool_lem :
    (id key : Text) (spawn : Option SpawnConfig) (p : Pool.Pool)
    → (q : Pool.Pool) × (sync_pool key spawn (some p) ≡ some q)
      × (lookup id q.configs
          ≡ (if text_eq key id then session_of key spawn else lookup id p.configs))
unfolding sync_pool
sync_pool_lem id key none p = (
  unregister_endpoint key p,
  refl,
  rw (unregister_endpoint-configs key p) (lookup-delete key id p.configs),
)
sync_pool_lem id key (some spawn) p = (
  register_endpoint key (session_config key spawn) p,
  refl,
  rw (register_endpoint-configs key (session_config key spawn) p)
      (lookup-insert key id (session_config key spawn) p.configs),
)

-- The manager has an endpoint with this configuration, or not; the pool of child processes has it
-- registered exactly if it is to run one, and only then work connections are bridged to it.
module _ (unmarshal_exec : List ℕ → Option ExecPayload) where
  abbrev pub spawn_or : Option Config → Option SpawnConfig
  spawn_or none = none
  spawn_or (some cfg) = spawn_of unmarshal_exec cfg

  pub record Synced (id : Text) (o : Option Config) (m : Manager) : Type 0 where
    pub pool : Pool.Pool
    pub has_pool : m.pool ≡ some pool
    pub installed : cfg_of (get id m) ≡ o
    pub process : lookup id pool.configs ≡ session_of id (spawn_or o)
    pub bridged : bridge_of (get id m) ≡ is_some (spawn_or o)

  pub skip_empty :
      (id key : Text) → text_eq id [] ≡ false → text_eq key [] ≡ true → text_eq key id ≡ false
  unfolding text_eq
  skip_empty [] key h e = cc
  skip_empty (c ∷ id) [] h e = refl
  skip_empty (c ∷ id) (d ∷ key) h e = cc

  pub upsert-Synced :
      (id : Text) (o : Option Config) (cfg : Config) (m : Manager)
      → text_eq id [] ≡ false
      → Synced id o m
      → Synced id (if text_eq cfg.endpoint_id id then some cfg else o) (upsert unmarshal_exec cfg m)
  unfolding upsert get
  upsert-Synced id o cfg m named v = elim (Bool-cases (text_eq cfg.endpoint_id [])) [
    | inl empty ↦ rw (empty, skip_empty id cfg.endpoint_id named empty) v
    | inr key ↦
        let spawn = spawn_of unmarshal_exec cfg in
        let (q, at, configs) = sync_pool_lem id cfg.endpoint_id spawn v.pool in
        let rt = sync_bridge (is_some spawn) m.pool (runtime_for cfg m) in
        let rt_cfg : rt.cfg ≡ cfg =
          sync_bridge-cfg (is_some spawn) m.pool (runtime_for cfg m) ∙ runtime_for-cfg cfg m in
        let rt_bridge : rt.bridge ≡ is_some spawn =
          sync_bridge-bridge (is_some spawn) m.pool v.pool (runtime_for cfg m) v.has_pool in
        rw key (record {
          pool = q;
          has_pool = rw v.has_pool at;
          installed =
              ground (arith, rt_cfg, v.installed, lookup-insert cfg.endpoint_id id rt m.by_id);
          process = ground (
            arith,
            configs,
            v.process,
            text_eq_iff cfg.endpoint_id id,
            λ (h : cfg.endpoint_id ≡ id). ap (λ k. session_of k spawn) h,
          );
          bridged =
              ground (arith, rt_bridge, v.bridged, lookup-insert cfg.endpoint_id id rt m.by_id);
        })
  ]

  pub remove-Synced :
      (id key : Text) (o : Option Config) (m : Manager)
      → text_eq id [] ≡ false
      → Synced id o m
      → Synced id (if text_eq key id then none else o) (remove key m)
  unfolding remove get
  remove-Synced id key o m named v = elim (Bool-cases (text_eq key [])) [
    | inl empty ↦ rw (empty, skip_empty id key named empty) v
    | inr some_key ↦
        let (q, at, configs) = sync_pool_lem id key none v.pool in
        let process : lookup id q.configs
            ≡ session_of id (spawn_or (if text_eq key id then none else o)) =
          ground (arith, configs, v.process) in
        elim (Option-cases (lookup key m.by_id)) [
          | inl absent ↦
              let gone : (lookup id m.by_id
                  ≡ (if text_eq key id then none else lookup id m.by_id)) =
                ground (
                  arith,
                  absent,
                  text_eq_iff key id,
                  λ (h : key ≡ id). ap (λ k. lookup k m.by_id) h,
                ) in
              rw (some_key, absent)
                (record {
                  pool = q;
                  has_pool = rw v.has_pool at;
                  installed = ground (arith, gone, v.installed);
                  process = process;
                  bridged = ground (arith, gone, v.bridged);
                })
          | inr (rt, is) ↦
              let gone = lookup-delete key id m.by_id in
              rw (some_key, is)
                (record {
                  pool = q;
                  has_pool = rw v.has_pool at;
                  installed = ground (arith, gone, v.installed);
                  process = process;
                  bridged = ground (arith, gone, v.bridged);
                })
        ]
  ]

  -- Only the signal differs.
  pub signal-Synced :
      (id : Text) (o : Option Config) (m : Manager) → Synced id o m → Synced id o (signal m)
  unfolding signal get
  signal-Synced id o m v = record {
    pool = v.pool;
    has_pool = v.has_pool;
    installed = v.installed;
    process = v.process;
    bridged = v.bridged;
  }
