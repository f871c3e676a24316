-- ===== src/Endpoint/Runtime/Tests.antt =====
-- Runs of an endpoint's runtime.
use orbitproxy_go.Prelude.{
  ℕ, ◌≡◌, refl, ◌⊎◌, Bool, true, false, text_eq, codes, List, [], none, pos,
}
use orbitproxy_go.Wire.Message.{StartWorkConn, EndpointHealth}
use orbitproxy_go.Health.Observation.{healthy_obs, reason_text}
use orbitproxy_go.Endpoint.Delivery.{Config, LocalServicePayload}
use orbitproxy_go.Endpoint.Delivery.Modes.{IsMode, resolve_delivery-IsMode}
use orbitproxy_go.Endpoint.Delivery.{resolve_delivery}
use orbitproxy_go.Endpoint.Runtime.{
  new_runtime, in_work_conn, dropped, report_unhealthy, report_health, probe_health_source,
}
use orbitproxy_go.Endpoint.Runtime.Routing.{Meant, Justified, in_work_conn-Justified}
use orbitproxy_go.Endpoint.Runtime.Reporting.{report_unhealthy-silent, report_health-probe}

abbrev unmarshal : List ℕ → LocalServicePayload × Bool
unmarshal raw = (record { local_addr = codes "127.0.0.1:80"; delivery = []; command = [] }, true)

resolve_delivery-IsMode_test : IsMode (resolve_delivery unmarshal (codes "{}"))
resolve_delivery-IsMode_test = resolve_delivery-IsMode unmarshal (codes "{}")

abbrev config : Config
config = record {
  endpoint_id = codes "ep";
  category = [];
  protocol = [];
  delivery = codes "forward";
  local_addr = codes "127.0.0.1:80";
  local_service_payload = codes "{}";
  health_enabled = true;
  health_interval_seconds = pos 10;
  health_timeout_seconds = pos 3;
  health_max_failed = pos 1;
  proxies = [];
}

abbrev work : StartWorkConn
work = record { endpoint_id = codes "ep"; route_version = []; source_addr = []; error = [] }

in_work_conn-Justified_test :
    (in_work_conn unmarshal work (new_runtime true config true) ≡ dropped)
    ⊎ (Meant work (new_runtime true config true)
        × Justified
            (new_runtime true config true)
            (in_work_conn unmarshal work (new_runtime true config true)))
in_work_conn-Justified_test = in_work_conn-Justified unmarshal work (new_runtime true config true)

report_unhealthy-silent_test :
    report_unhealthy (codes "refused") 5 (new_runtime true config true) ≡ none
report_unhealthy-silent_test =
    report_unhealthy-silent (codes "refused") 5 (new_runtime true config true)

abbrev sent : EndpointHealth
sent = record { endpoint_id = codes "ep"; healthy = true; reason = []; error_code = []; ts = pos 7 }

report_health-probe_test :
    let rt = new_runtime true config true in
    let obs = healthy_obs (codes "probe") 7000000000 in
    (rt.cfg.health_enabled ≡ true)
    × (probe_health_source obs.source ≡ true)
    × (codes "ep" ≡ rt.cfg.endpoint_id)
    × (true ≡ obs.healthy)
    × ((true ≡ true) → (sent.reason ≡ []) × (sent.error_code ≡ []))
    × ((true ≡ false) → ([] ≡ reason_text obs) × ([] ≡ obs.code))
unfolding new_runtime healthy_obs report_health probe_health_source text_eq
report_health-probe_test =
    report_health-probe (healthy_obs (codes "probe") 7000000000) (new_runtime true config true) sent
      refl
