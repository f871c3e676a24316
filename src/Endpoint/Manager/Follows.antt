-- ===== src/Endpoint/Manager/Follows.antt =====
-- internal/endpoint: the manager follows the edge's messages. After any sequence of them an endpoint is
-- there exactly if the last message about it installed it.
use orbitproxy_go.Prelude.{
  ℕ, ◌≡◌, refl, subst, inl, inr, Bool, true, false, not, Text, text_eq, text_Eq, List, [], ◌∷◌,
  Option, none, some, lookup, if◌then◌else◌, Bool-cases,
}
use orbitproxy_go.Wire.Message.{NewEndpoint, CloseEndpoint}
use orbitproxy_go.Mcp.Payload.{ExecPayload}
use orbitproxy_go.Mcp.Pool.{PoolConfig, new_pool}
use orbitproxy_go.Endpoint.Delivery.{Config, LocalServicePayload, config_from_new_endpoint}
use orbitproxy_go.Endpoint.Manager.{
  Manager, new_manager, get, upsert, remove, handle_new_endpoint, handle_close_endpoint,
  ensure_exec_bridge,
}
use orbitproxy_go.Endpoint.Manager.Synced.{
  Synced, upsert-Synced, remove-Synced, signal-Synced, skip_empty,
}

-- The messages that change the set of endpoints.
pub data Event : Type 0 where
  new_endpoint : NewEndpoint → Event
  close_endpoint : CloseEndpoint → Event

if_not {ℓ} : {A : Type ℓ} (b : Bool) (x y : A) → (if b then x else y) ≡ (if not b then y else x)
if_not true x y = refl
if_not false x y = refl

module _ (unmarshal : List ℕ → LocalServicePayload × Bool)
    (unmarshal_exec : List ℕ → Option ExecPayload) where
  unfoldable pub handle : Event → Manager → Manager
  handle (new_endpoint new) m = handle_new_endpoint unmarshal unmarshal_exec new m
  handle (close_endpoint c) m = handle_close_endpoint c m

  -- The messages, the last one first.
  unfoldable pub follow : List Event → Manager → Manager
  follow [] m = m
  follow (e ∷ earlier) m = handle e (follow earlier m)

  -- What the last message about an endpoint says.
  abbrev pub latest : Text → List Event → Option Config
  latest id [] = none
  latest id (new_endpoint new ∷ earlier) =
      let before = latest id earlier in
      if not (text_eq new.endpoint_id id)
      then before
      else if not (text_eq new.error [])
      then none
      else some (config_from_new_endpoint unmarshal new)
  latest id (close_endpoint c ∷ earlier) =
      let before = latest id earlier in if text_eq c.endpoint_id id then none else before

  handle-Synced :
      (id : Text) (e : Event) (earlier : List Event) (m : Manager)
      → text_eq id [] ≡ false
      → Synced unmarshal_exec id (latest id earlier) m
      → Synced unmarshal_exec id (latest id (e ∷ earlier)) (handle e m)
  unfolding handle handle_new_endpoint handle_close_endpoint config_from_new_endpoint
  handle-Synced id (new_endpoint new) earlier m named v = elim (Bool-cases (text_eq new.error [])) [
    | inl accepted ↦
        let cfg = config_from_new_endpoint unmarshal new in
        let w = upsert-Synced unmarshal_exec id (latest id earlier) cfg m named v in
        rw accepted (
          signal-Synced unmarshal_exec id _ (upsert unmarshal_exec cfg m) (
            subst (λ o. Synced unmarshal_exec id o (upsert unmarshal_exec cfg m))
              (if_not (text_eq new.endpoint_id id) (some cfg) (latest id earlier)) w))
    | inr rejected ↦
        let w = remove-Synced unmarshal_exec id new.endpoint_id (latest id earlier) m named v in
        rw rejected (
          signal-Synced unmarshal_exec id _ (remove new.endpoint_id m) (
            subst (λ o. Synced unmarshal_exec id o (remove new.endpoint_id m))
              (if_not (text_eq new.endpoint_id id) none (latest id earlier)) w))
  ]
  handle-Synced id (close_endpoint c) earlier m named v =
      elim (Bool-cases (text_eq c.endpoint_id [])) [
        | inl empty ↦ rw (empty, skip_empty unmarshal_exec id c.endpoint_id named empty) v
        | inr key ↦ rw key (
            signal-Synced unmarshal_exec id _ (remove c.endpoint_id m)
              (remove-Synced unmarshal_exec id c.endpoint_id (latest id earlier) m named v))
      ]

  follow-Synced :
      (id : Text) (events : List Event) (m : Manager)
      → text_eq id [] ≡ false
      → Synced unmarshal_exec id none m
      → Synced unmarshal_exec id (latest id events) (follow events m)
  unfolding follow
  follow-Synced id [] m named v = v
  follow-Synced id (e ∷ earlier) m named v =
      handle-Synced id e earlier (follow earlier m) named (follow-Synced id earlier m named v)

  -- After any NewEndpoint and CloseEndpoint messages to a manager that has its pool, for each endpoint
  -- id that is not empty: the manager has the endpoint exactly if the last message about it was a
  -- NewEndpoint without an error, and then with that message's configuration; the pool has it registered
  -- exactly if moreover its delivery is `exec` and its payload has a command, and then with that command
  -- line; and the bridge is set in exactly these cases.
  pub follow-latest :
      (c : PoolConfig) (id : Text) (events : List Event)
      → text_eq id [] ≡ false
      → Synced unmarshal_exec id
          (latest id events)
          (follow events (ensure_exec_bridge c new_manager))
  unfolding ensure_exec_bridge new_manager new_pool get lookup
  follow-latest c id events named =
      follow-Synced id events (ensure_exec_bridge c new_manager) named (record {
        pool = new_pool c;
        has_pool = refl;
        installed = refl;
        process = refl;
        bridged = refl;
      })
