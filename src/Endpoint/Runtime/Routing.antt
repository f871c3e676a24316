-- ===== src/Endpoint/Runtime/Routing.antt =====
-- internal/endpoint: where a work connection goes.
use orbitproxy_go.Prelude.{
  ℕ, ◌≡◌, refl, sym, subst, ◌⊎◌, inl, inr, Bool, true, false, not, ◌&&◌, text_eq, text_eq_iff, List,
  [], some, arith, Bool-cases, Option-cases,
}
use orbitproxy_go.Wire.Message.{StartWorkConn}
use orbitproxy_go.Endpoint.Delivery.{
  LocalServicePayload, delivery_in_process, delivery_exec, local_addr_from_payload,
}
use orbitproxy_go.Endpoint.Runtime.{
  Runtime, Route, dropped, offer, bridge_to, dial, in_work_conn, tcp_join,
}

-- The endpoint that the message names, where it names one, is this one.
abbrev pub Meant : StartWorkConn → Runtime → Type 0
Meant start rt = (start.endpoint_id ≡ []) ⊎ (start.endpoint_id ≡ rt.cfg.endpoint_id)

-- What a route says of the runtime that chose it.
abbrev pub Justified : Runtime → Route → Type 0
Justified rt dropped = Unit
Justified rt (offer l) = (rt.cfg.delivery ≡ delivery_in_process) × (rt.listener ≡ some l)
Justified rt (bridge_to e) =
    (rt.cfg.delivery ≡ delivery_exec) × (rt.bridge ≡ true) × (e ≡ rt.cfg.endpoint_id)
Justified rt (dial addr) =
    (text_eq rt.cfg.delivery delivery_in_process ≡ false)
    × (text_eq rt.cfg.delivery delivery_exec ≡ false)
    × (text_eq addr [] ≡ false)

tcp_join-Justified :
    (unmarshal : List ℕ → LocalServicePayload × Bool) (rt : Runtime)
    → text_eq rt.cfg.delivery delivery_in_process ≡ false
    → text_eq rt.cfg.delivery delivery_exec ≡ false
    → Justified rt (tcp_join unmarshal rt.cfg)
unfolding tcp_join local_addr_from_payload
tcp_join-Justified unmarshal rt listen exec = ground (arith, listen, exec)

routed :
    (start : StartWorkConn) (rt : Runtime) (route : Route)
    → Meant start rt
    → (r : Route) → route ≡ r
    → Justified rt r
    → (route ≡ dropped) ⊎ (Meant start rt × Justified rt route)
routed start rt route named r e j = inr (named, subst (Justified rt) (sym e) j)

-- A connection that names another endpoint is dropped. Otherwise it is offered to the listener of an
-- in-process endpoint, given to the bridge under the endpoint's own id if the delivery is exec and the
-- bridge is set, or joined to an address that is not empty if the delivery is neither; and in every
-- other case it is dropped.
pub in_work_conn-Justified :
    (unmarshal : List ℕ → LocalServicePayload × Bool) (start : StartWorkConn) (rt : Runtime)
    → (in_work_conn unmarshal start rt ≡ dropped)
      ⊎ (Meant start rt × Justified rt (in_work_conn unmarshal start rt))
unfolding in_work_conn
in_work_conn-Justified unmarshal start rt =
    elim (Bool-cases
      (not (text_eq start.endpoint_id []) && not (text_eq start.endpoint_id rt.cfg.endpoint_id))) [
        | inl other ↦ inl (rw other refl)
        | inr meant ↦
            let named : Meant start rt = ground (
              arith,
              text_eq_iff start.endpoint_id [],
              text_eq_iff start.endpoint_id rt.cfg.endpoint_id,
            ) in
            let by = routed start rt (in_work_conn unmarshal start rt) named in
            elim (Bool-cases (text_eq rt.cfg.delivery delivery_in_process)) [
              | inl listen ↦
                  let mode = (text_eq_iff rt.cfg.delivery delivery_in_process).0 listen in
                  elim (Option-cases rt.listener) [
                    | inl unclaimed ↦ inl (simp (meant, listen, unclaimed))
                    | inr (l, claimed) ↦
                        by (offer l) (simp (meant, listen, claimed)) (mode, claimed)
                  ]
              | inr not_listen ↦ elim (Bool-cases (text_eq rt.cfg.delivery delivery_exec)) [
                | inr forward ↦
                    by (tcp_join unmarshal rt.cfg) (simp (meant, not_listen, forward))
                      (tcp_join-Justified unmarshal rt not_listen forward)
                | inl exec ↦
                    let mode = (text_eq_iff rt.cfg.delivery delivery_exec).0 exec in
                    elim (Bool-cases rt.bridge) [
                      | inr unset ↦ inl (simp (meant, not_listen, exec, unset))
                      | inl set ↦
                          by (bridge_to rt.cfg.endpoint_id) (simp (meant, not_listen, exec, set))
                            (mode, set, refl)
                    ]
              ]
            ]
      ]
