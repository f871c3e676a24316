-- ===== src/Endpoint/Delivery.antt =====
-- internal/endpoint: delivery.go and config.go. json.Unmarshal into the payload struct is the parameter
-- `unmarshal`: what is in the struct afterwards, and whether there was no error.
pub mod Modes
use orbitproxy_go.Prelude.{
  ℕ, ℤ, Bool, true, false, not, ◌||◌, Text, text_eq, codes, List, [], ◌∷◌, Option, none, some,
  length, ◌==◌, if◌then◌else◌, trim_space, to_lower,
}
use orbitproxy_go.Wire.Message.{NewEndpoint, EndpointProxy}

-- DeliveryForward and its siblings
abbrev pub delivery_forward : Text
delivery_forward = codes "forward"

abbrev pub delivery_in_process : Text
delivery_in_process = codes "in_process"

abbrev pub delivery_exec : Text
delivery_exec = codes "exec"

pub record LocalServicePayload : Type 0 where
  pub local_addr : Text
  pub delivery : Text
  pub command : Text

pub record Config : Type 0 where
  pub endpoint_id : Text
  pub category : Text
  pub protocol : Text
  pub delivery : Text
  pub local_addr : Text
  pub local_service_payload : List ℕ
  pub health_enabled : Bool
  pub health_interval_seconds : ℤ
  pub health_timeout_seconds : ℤ
  pub health_max_failed : ℤ
  pub proxies : List EndpointProxy

pub data AddrError : Type 0 where
  unmarshal_error addr_required : AddrError

-- The switch of ResolveDelivery on the explicit delivery.
unfoldable pub explicit_delivery : Text → Option Text
explicit_delivery d =
    if text_eq d delivery_exec
    then some delivery_exec
    else if text_eq d delivery_in_process
        || text_eq d (codes "listen")
        || text_eq d (codes "in-process")
        || text_eq d (codes "inprocess")
    then some delivery_in_process
    else if text_eq d delivery_forward || text_eq d (codes "dial")
    then some delivery_forward
    else none

-- What ResolveDelivery does with a payload.
unfoldable pub resolve_payload : LocalServicePayload → Text
resolve_payload p = elim (explicit_delivery (to_lower p.delivery)) [
  | some mode ↦ mode
  | none ↦
      if not (text_eq p.command [])
      then delivery_exec
      else if not (text_eq p.local_addr [])
      then delivery_forward
      else delivery_in_process
]

module _ (unmarshal : List ℕ → LocalServicePayload × Bool) where
  unfoldable pub parse_local_service_payload : List ℕ → LocalServicePayload
  parse_local_service_payload raw =
      if length raw == 0
      then record { local_addr = []; delivery = []; command = [] }
      else let p = (unmarshal raw).0 in
        record p { local_addr = trim_space p.local_addr; delivery = trim_space p.delivery }

  -- LocalAddrFromPayload: an address, or an error.
  unfoldable pub local_addr_from_payload : List ℕ → Text × Option AddrError
  local_addr_from_payload raw =
      let (p, ok) = unmarshal raw in
      if not ok
      then ([], some unmarshal_error)
      else if text_eq (trim_space p.local_addr) []
      then ([], some addr_required)
      else (trim_space p.local_addr, none)

  unfoldable pub resolve_delivery : List ℕ → Text
  resolve_delivery raw = resolve_payload (parse_local_service_payload raw)

  -- configFromNewEndpoint
  unfoldable pub config_from_new_endpoint : NewEndpoint → Config
  config_from_new_endpoint new = record {
    endpoint_id = new.endpoint_id;
    category = new.category;
    protocol = new.protocol;
    delivery = resolve_delivery new.local_service_payload;
    local_addr = (parse_local_service_payload new.local_service_payload).local_addr;
    local_service_payload = new.local_service_payload;
    health_enabled = new.health_enabled;
    health_interval_seconds = new.health_interval_seconds;
    health_timeout_seconds = new.health_timeout_seconds;
    health_max_failed = new.health_max_failed;
    proxies = new.proxies;
  }
