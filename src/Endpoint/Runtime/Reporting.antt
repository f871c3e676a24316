-- ===== src/Endpoint/Runtime/Reporting.antt =====
-- internal/endpoint/runtime.go: who can change what the edge thinks of an endpoint's health.
use orbitproxy_go.Prelude.{ℕ, ◌≡◌, true, false, Text, text_eq, [], none, some, arith}
use orbitproxy_go.Wire.Message.{EndpointHealth}
use orbitproxy_go.Health.Observation.{Observation, unhealthy, reason_text}
use orbitproxy_go.Endpoint.Runtime.{
  Runtime, probe_health_source, report_health, mark_unhealthy, report_unhealthy,
}

-- A failed dial sends no health message, whatever the runtime and the reason are.
pub report_unhealthy-silent :
    (reason : Text) (now : ℕ) (rt : Runtime) → report_unhealthy reason now rt ≡ none
unfolding report_unhealthy mark_unhealthy report_health unhealthy probe_health_source text_eq
report_unhealthy-silent reason now rt = ground arith

-- A health message is sent only for an endpoint whose checks are enabled and for a source that is a
-- probe. It carries the endpoint's own id and the observation's verdict, and a reason and a code only
-- with a bad one.
pub report_health-probe :
    (obs : Observation) (rt : Runtime) (msg : EndpointHealth)
    → report_health obs rt ≡ some msg
    → (rt.cfg.health_enabled ≡ true)
      × (probe_health_source obs.source ≡ true)
      × (msg.endpoint_id ≡ rt.cfg.endpoint_id)
      × (msg.healthy ≡ obs.healthy)
      × ((msg.healthy ≡ true) → (msg.reason ≡ []) × (msg.error_code ≡ []))
      × ((msg.healthy ≡ false) → (msg.reason ≡ reason_text obs) × (msg.error_code ≡ obs.code))
unfolding report_health
report_health-probe obs rt msg sent = ground arith
