-- ===== src/Endpoint/Runtime.antt =====
-- internal/endpoint: runtime.go and handler.go. A listener is named by a number (Listener models one),
-- a bridge and a health reporter by their being there. What a call does outside is in its result.
pub mod Routing
pub mod Reporting
mod Tests
use orbitproxy_go.Prelude.{
  ℕ, ◌/◌, ◌^◌, ℤ, pos, Bool, true, false, not, ◌&&◌, ◌||◌, Text, text_eq, codes, List, [], ◌∷◌,
  Option, none, some, length, ◌==◌, if◌then◌else◌, trim_space, ◌⊎◌, inl, inr,
}
use orbitproxy_go.Wire.Message.{EndpointHealth, StartWorkConn}
use orbitproxy_go.Health.Observation.{Observation, unhealthy, healthy_obs, reason_text}
use orbitproxy_go.Health.Monitor.{Monitor, new_monitor}
use orbitproxy_go.Endpoint.Delivery.{
  Config, LocalServicePayload, delivery_in_process, delivery_exec, local_addr_from_payload,
  AddrError,
}

-- The monitor is there with the address that it probes.
pub record Runtime : Type 0 where
  pub ctx : Bool
  pub cfg : Config
  pub listener : Option ℕ
  pub monitor : Option (Text × Monitor)
  pub send_health : Bool
  pub bridge : Bool

-- selectProbeLocked: the address of the TCP probe.
unfoldable pub select_probe : Config → Option Text
select_probe cfg =
    if text_eq cfg.delivery delivery_exec
    then none
    else if text_eq cfg.local_addr []
    then none
    else some cfg.local_addr

-- restartMonitorLocked; the old monitor has been stopped.
unfoldable pub monitor_for : Bool → Config → Option (Text × Monitor)
monitor_for ctx cfg =
    if not cfg.health_enabled || not ctx
    then none
    else if text_eq cfg.delivery delivery_in_process
    then none
    else elim (select_probe cfg) [
      | none ↦ none
      | some addr ↦ some (
        addr,
        new_monitor cfg.health_interval_seconds cfg.health_timeout_seconds cfg.health_max_failed
            (codes "tcp"),
      )
    ]

unfoldable pub new_runtime : Bool → Config → Bool → Runtime
new_runtime ctx cfg send_health = record {
  ctx = ctx;
  cfg = cfg;
  listener = none;
  monitor = monitor_for ctx cfg;
  send_health = send_health;
  bridge = false;
}

unfoldable pub update : Bool → Config → Bool → Runtime → Runtime
update ctx cfg send_health rt = record rt {
  ctx = ctx;
  cfg = cfg;
  send_health = rt.send_health || send_health;
  monitor = monitor_for ctx cfg;
}

unfoldable pub set_bridge : Bool → Runtime → Runtime
set_bridge b rt = record rt { bridge = b }

pub data ClaimError : Type 0 where
  not_in_process listener_claimed endpoint_missing : ClaimError

-- ClaimListener, with the number for a new listener.
unfoldable pub claim_listener : ℕ → Runtime → Runtime × (ClaimError ⊎ ℕ)
claim_listener fresh rt =
    if not (text_eq rt.cfg.delivery delivery_in_process)
    then (rt, inl not_in_process)
    else elim rt.listener [
      | some l ↦ (rt, inl listener_claimed)
      | none ↦ (record rt { listener = some fresh }, inr fresh)
    ]

-- Close: the listener that is closed with it.
unfoldable pub close : Runtime → Runtime × Option ℕ
close rt = (record rt { monitor = none; listener = none }, rt.listener)

-- probeHealthSource
unfoldable pub probe_health_source : Text → Bool
probe_health_source source =
    text_eq source (codes "probe")
    || text_eq source (codes "tcp")
    || text_eq source (codes "mcp_http_ping")
    || text_eq source (codes "mcp_stdio_ping")

-- reportHealth: the message that is sent.
unfoldable pub report_health : Observation → Runtime → Option EndpointHealth
report_health obs rt =
    if not rt.send_health || not rt.cfg.health_enabled || not (probe_health_source obs.source)
    then none
    else some (record {
      endpoint_id = rt.cfg.endpoint_id;
      healthy = obs.healthy;
      reason = if not obs.healthy then reason_text obs else [];
      error_code = if not obs.healthy then obs.code else [];
      ts = pos (obs.observed_at / 10 ^ 9);
    })

unfoldable pub mark_unhealthy : Observation → ℕ → Runtime → Option EndpointHealth
mark_unhealthy obs now rt =
    report_health
      (record obs {
        healthy = false;
        observed_at = if obs.observed_at == 0 then now else obs.observed_at;
      })
      rt

unfoldable pub mark_healthy : Text → ℕ → Runtime → Option EndpointHealth
mark_healthy source now rt = report_health (healthy_obs source now) rt

unfoldable pub report_unhealthy : Text → ℕ → Runtime → Option EndpointHealth
report_unhealthy reason now rt =
    mark_unhealthy (unhealthy (codes "dial_failed") reason (codes "dial") now) now rt

-- What is done with a work connection.
pub data Route : Type 0 where
  dropped : Route
  offer : ℕ → Route
  bridge_to : Text → Route
  dial : Text → Route

-- TCPJoinHandler.InWorkConn, up to the dialling.
unfoldable pub tcp_join : (List ℕ → LocalServicePayload × Bool) → Config → Route
tcp_join unmarshal cfg =
    if not (text_eq (trim_space cfg.local_addr) [])
    then dial (trim_space cfg.local_addr)
    else let (addr, e) = local_addr_from_payload unmarshal cfg.local_service_payload in
      elim e [ some err ↦ dropped | none ↦ dial addr ]

-- InWorkConn. The connection is kept only where a listener takes it.
unfoldable pub in_work_conn :
    (List ℕ → LocalServicePayload × Bool) → StartWorkConn → Runtime → Route
in_work_conn unmarshal start rt =
    if not (text_eq start.endpoint_id []) && not (text_eq start.endpoint_id rt.cfg.endpoint_id)
    then dropped
    else if text_eq rt.cfg.delivery delivery_in_process
    then elim rt.listener [ none ↦ dropped | some l ↦ offer l ]
    else if text_eq rt.cfg.delivery delivery_exec
    then (if rt.bridge then bridge_to rt.cfg.endpoint_id else dropped)
    else tcp_join unmarshal rt.cfg
