-- ===== src/Endpoint/Delivery/Modes.antt =====
-- internal/endpoint/delivery.go: which mode a payload gets.
use orbitproxy_go.Prelude.{
  ℕ, ◌≡◌, refl, ◌⊎◌, inl, inr, Bool, true, false, ◌||◌, Text, text_eq, codes, List, Option, none,
  some, if◌then◌else◌, to_lower, arith,
}
use orbitproxy_go.Endpoint.Delivery.{
  delivery_forward, delivery_in_process, delivery_exec, LocalServicePayload, explicit_delivery,
  resolve_payload, resolve_delivery, parse_local_service_payload,
}

-- One of the three modes.
abbrev pub IsMode : Text → Type 0
IsMode mode = (mode ≡ delivery_forward) ⊎ (mode ≡ delivery_in_process) ⊎ (mode ≡ delivery_exec)

abbrev IsModeOr : Option Text → Type 0
IsModeOr none = Unit
IsModeOr (some mode) = IsMode mode

if-IsModeOr :
    (b : Bool) (x y : Option Text) → IsModeOr x → IsModeOr y → IsModeOr (if b then x else y)
if-IsModeOr true x y p q = p
if-IsModeOr false x y p q = q

explicit_delivery-IsModeOr : (d : Text) → IsModeOr (explicit_delivery d)
unfolding explicit_delivery
explicit_delivery-IsModeOr d =
    let other = text_eq d delivery_forward || text_eq d (codes "dial") in
    let listen =
      text_eq d delivery_in_process
      || text_eq d (codes "listen")
      || text_eq d (codes "in-process")
      || text_eq d (codes "inprocess") in
    let last = if other then some delivery_forward else none in
    let middle = if listen then some delivery_in_process else last in
    if-IsModeOr (text_eq d delivery_exec) (some delivery_exec) middle (inr (inr refl)) (
      if-IsModeOr listen (some delivery_in_process) last (inr (inl refl))
        (if-IsModeOr other (some delivery_forward) none (inl refl) tt))

-- Whatever the payload is, ResolveDelivery gives one of the three modes.
pub resolve_delivery-IsMode :
    (unmarshal : List ℕ → LocalServicePayload × Bool) (raw : List ℕ)
    → IsMode (resolve_delivery unmarshal raw)
unfolding resolve_delivery resolve_payload
resolve_delivery-IsMode unmarshal raw =
    let p = parse_local_service_payload unmarshal raw in
    ground (arith, explicit_delivery-IsModeOr (to_lower p.delivery))
