-- ===== src/Endpoint/Manager.antt =====
-- internal/endpoint: manager.go and exec_bridge.go. The pool is the model's own (Mcp/Pool.antt); the
-- bridge and the pool are there together. `listeners` counts the listeners made so far, and `closed`
-- names those that were closed. The channel `notify` has room for one signal.
pub mod Synced
pub mod Follows
pub mod Bridged
mod Tests
use orbitproxy_go.Prelude.{
  ℕ, zero, ◌+◌, Bool, true, false, not, ◌&&◌, ◌||◌, Text, text_eq, text_Eq, List, [], ◌∷◌, Option,
  none, some, Dict, lookup, insert, delete, length, ◌==◌, if◌then◌else◌, ◌⊎◌, inl, inr, pos,
}
use orbitproxy_go.Wire.Message.{NewEndpoint, CloseEndpoint, StartWorkConn}
use orbitproxy_go.Mcp.SpawnConfig.{SpawnConfig, SessionConfig}
use orbitproxy_go.Mcp.Payload.{ExecPayload, parse_exec_payload}
use orbitproxy_go.Mcp.Pool
use orbitproxy_go.Mcp.Pool.{PoolConfig, new_pool, register_endpoint, unregister_endpoint}
use orbitproxy_go.Endpoint.Delivery.{
  Config, LocalServicePayload, delivery_in_process, delivery_exec, config_from_new_endpoint,
}
use orbitproxy_go.Endpoint.Runtime
use orbitproxy_go.Endpoint.Runtime.{
  Runtime, new_runtime, update, set_bridge, claim_listener, close, ClaimError, endpoint_missing,
  Route, dropped, in_work_conn,
}

pub record Manager : Type 0 where
  pub by_id : Dict Runtime
  pub ctx : Bool
  pub send_health : Bool
  pub notify : Bool
  pub pool : Option Pool.Pool
  pub listeners : ℕ
  pub closed : List ℕ

unfoldable pub new_manager : Manager
new_manager = record {
  by_id = [];
  ctx = false;
  send_health = false;
  notify = false;
  pool = none;
  listeners = 0;
  closed = [];
}

unfoldable pub signal : Manager → Manager
signal m = record m { notify = true }

unfoldable pub set_context : Bool → Manager → Manager
set_context ctx m = record m { ctx = ctx }

unfoldable pub set_send_health : Bool → Manager → Manager
set_send_health f m = record m { send_health = f }

-- EnsureExecBridge: once.
unfoldable pub ensure_exec_bridge : PoolConfig → Manager → Manager
ensure_exec_bridge cfg m = elim m.pool [
  | some p ↦ m
  | none ↦ record m { pool = some (new_pool cfg) }
]

-- ShutdownExec
unfoldable pub shutdown_exec : Manager → Manager
shutdown_exec m = elim m.pool [ none ↦ m | some p ↦ record m { pool = some (Pool.close_all p) } ]

unfoldable pub get : Text → Manager → Option Runtime
get id m = lookup id m.by_id

unfoldable pub len : Manager → ℕ
len m = length m.by_id

-- What RegisterEndpoint gets for a configuration.
abbrev pub session_config : Text → SpawnConfig → SessionConfig
session_config id spawn = record {
  spawn = spawn;
  handshake_timeout = pos 0;
  request_timeout = pos 0;
  endpoint_id = id;
  machine_dir = [];
  pid_file = [];
}

-- The pool, with an endpoint registered or not.
unfoldable pub sync_pool : Text → Option SpawnConfig → Option Pool.Pool → Option Pool.Pool
sync_pool id spawn none = none
sync_pool id none (some p) = some (unregister_endpoint id p)
sync_pool id (some spawn) (some p) = some (register_endpoint id (session_config id spawn) p)

abbrev pub is_some {ℓ} : {A : Type ℓ} → Option A → Bool
is_some none = false
is_some (some a) = true

-- SetBridge, where there is a pool.
unfoldable pub sync_bridge : Bool → Option Pool.Pool → Runtime → Runtime
sync_bridge exec none rt = rt
sync_bridge exec (some p) rt = set_bridge exec rt

-- The runtime that upsert makes or updates.
unfoldable pub runtime_for : Config → Manager → Runtime
runtime_for cfg m = elim (lookup cfg.endpoint_id m.by_id) [
  | some existing ↦ update m.ctx cfg m.send_health existing
  | none ↦ new_runtime m.ctx cfg m.send_health
]

abbrev closing : Option ℕ → List ℕ → List ℕ
closing none ls = ls
closing (some l) ls = l ∷ ls

unfoldable pub remove : Text → Manager → Manager
remove id m =
    if text_eq id []
    then m
    else let m' : Manager = record m { pool = sync_pool id none m.pool } in
      elim (lookup id m.by_id) [
        | none ↦ m'
        | some rt ↦ record m' {
          by_id = delete id m.by_id;
          closed = closing (close (set_bridge false rt)).1 m.closed;
        }
      ]

unfoldable pub handle_close_endpoint : CloseEndpoint → Manager → Manager
handle_close_endpoint c m = if text_eq c.endpoint_id [] then m else signal (remove c.endpoint_id m)

module _ (unmarshal_exec : List ℕ → Option ExecPayload) where
  -- How the child process of an endpoint is started, if its configuration is one for a process.
  unfoldable pub spawn_of : Config → Option SpawnConfig
  spawn_of cfg =
      if not (text_eq cfg.delivery delivery_exec)
      then none
      else parse_exec_payload unmarshal_exec cfg.local_service_payload

  -- upsert, with syncExecLocked for the runtime that it puts into the map.
  unfoldable pub upsert : Config → Manager → Manager
  upsert cfg m =
      if text_eq cfg.endpoint_id []
      then m
      else let spawn = spawn_of cfg in
        let rt = sync_bridge (is_some spawn) m.pool (runtime_for cfg m) in
        record m {
          by_id = insert cfg.endpoint_id rt m.by_id;
          pool = sync_pool cfg.endpoint_id spawn m.pool;
        }

module _ (unmarshal : List ℕ → LocalServicePayload × Bool)
    (unmarshal_exec : List ℕ → Option ExecPayload) where
  unfoldable pub handle_new_endpoint : NewEndpoint → Manager → Manager
  handle_new_endpoint new m =
      if not (text_eq new.error [])
      then signal (remove new.endpoint_id m)
      else signal (upsert unmarshal_exec (config_from_new_endpoint unmarshal new) m)

module _ (unmarshal : List ℕ → LocalServicePayload × Bool) where
  unfoldable pub handle_work_conn : StartWorkConn → Manager → Route
  handle_work_conn start m =
      if not (text_eq start.error []) then dropped else elim (get start.endpoint_id m) [
        | none ↦ dropped
        | some rt ↦ in_work_conn unmarshal start rt
      ]

-- ClaimListener
unfoldable pub claim : Text → Manager → Manager × (ClaimError ⊎ ℕ)
claim id m = elim (get id m) [
  | none ↦ (m, inl endpoint_missing)
  | some rt ↦
      let (rt', result) = claim_listener m.listeners rt in
      elim result [
        | inl e ↦ (m, inl e)
        | inr l ↦ (record m { by_id = insert id rt' m.by_id; listeners = m.listeners + 1 }, inr l)
      ]
]

-- The loop of FindInProcessEndpoint; an empty `want` is any endpoint.
unfoldable pub find_in_process : Text → Dict Runtime → Option Text
find_in_process want [] = none
find_in_process want ((id, rt) ∷ m) =
    let rest = find_in_process want m in
    if not (text_eq want []) && not (text_eq id want)
    then rest
    else if not (text_eq rt.cfg.delivery delivery_in_process)
    then rest
    else elim rt.listener [ none ↦ some id | some l ↦ rest ]

unfoldable pub find_in_process_endpoint : Text → Manager → Option Text
find_in_process_endpoint want m = find_in_process want m.by_id
