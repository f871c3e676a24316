-- ===== src/Control/Lifecycle.antt =====
-- internal/gateway_ctl/control_handlers.go: how the edge ends a session, and what it is told.
use orbitproxy_go.Prelude.{
  suc, ◌≡◌, refl, ap, ◌⊎◌, inl, inr, true, false, not, Text, text_eq, codes, [], ◌∷◌, none, some,
  if◌then◌else◌, trim_space, Bool-cases,
}
use orbitproxy_go.Wire.Message.{Message, Disconnect, Stop, Restart, Update, LifecycleResult}
use orbitproxy_go.Control.Handlers.{
  Control, send, mark_permanent_disconnect, close_session, ack_lifecycle, handle_disconnect,
  handle_stop, handle_restart, handle_update,
}

-- The session is closed for good, for a reason that is not empty.
pub record Ended (ctl : Control) : Type 0 where
  pub permanent : ctl.permanent_disconnect ≡ true
  pub closed : ctl.is_closed ≡ true
  pub reason : text_eq ctl.disconnect_reason [] ≡ false

or_else : (t d : Text) → text_eq d [] ≡ false → text_eq (if text_eq t [] then d else t) [] ≡ false
or_else t d h = elim (Bool-cases (text_eq t [])) [ inl empty ↦ rw empty h | inr set ↦ rw set set ]

-- Exactly one answer with the request's id, or none if the id is blank.
abbrev pub Acked : Text → Control → Control → Type 0
Acked request_id before after =
    ((text_eq (trim_space request_id) [] ≡ true) × (after.sent ≡ before.sent))
    ⊎ ((r : LifecycleResult) × (r.request_id ≡ request_id)
        × (after.sent ≡ Message.lifecycle_result r ∷ before.sent))

ack_lifecycle-Acked :
    (request_id status code message version : Text) (ctl : Control)
    → Acked request_id ctl (ack_lifecycle request_id status code message version ctl)
unfolding ack_lifecycle send
ack_lifecycle-Acked request_id status code message version ctl =
    elim (Bool-cases (text_eq (trim_space request_id) [])) [
      | inl blank ↦ inl (blank, rw blank refl)
      | inr id ↦ inr (
        record {
          request_id = request_id;
          status = status;
          error_code = code;
          error_message = message;
          version = version;
        },
        refl,
        rw id refl,
      )
    ]

ack_lifecycle-restarts :
    (request_id status code message version : Text) (ctl : Control)
    → (ack_lifecycle request_id status code message version ctl).restarts ≡ ctl.restarts
unfolding ack_lifecycle send
ack_lifecycle-restarts request_id status code message version ctl =
    elim (Bool-cases (text_eq (trim_space request_id) [])) [
      | inl blank ↦ rw blank refl
      | inr id ↦ rw id refl
    ]

-- A Disconnect ends the session for good, with a reason that is never empty, and sends nothing. A Stop
-- does the same and is acknowledged first.
pub stop-Ended :
    (d : Disconnect) (s : Stop) (ctl : Control)
    → Ended (handle_disconnect d ctl)
      × ((handle_disconnect d ctl).sent ≡ ctl.sent)
      × Ended (handle_stop s ctl)
      × Acked s.request_id ctl (handle_stop s ctl)
unfolding handle_disconnect handle_stop close_session mark_permanent_disconnect text_eq
stop-Ended d s ctl = (
  record {
    permanent = refl;
    closed = refl;
    reason =
        or_else (if not (text_eq d.reason_text []) then d.reason_text else d.reason)
          (codes "edge disconnected session") refl;
  },
  refl,
  record { permanent = refl; closed = refl; reason = or_else s.reason (codes "stopped") refl },
  ack_lifecycle-Acked s.request_id (codes "succeeded") [] [] [] ctl,
)

-- A Restart and an Update are acknowledged once. The process is restarted once for a Restart and for an
-- Update that was installed, and not for one that failed.
pub restart-Acked :
    (r : Restart) (u : Update) (e : Text) (ctl : Control)
    → Acked r.request_id ctl (handle_restart r ctl)
      × ((handle_restart r ctl).restarts ≡ suc ctl.restarts)
      × Acked u.request_id ctl (handle_update none u ctl)
      × ((handle_update none u ctl).restarts ≡ suc ctl.restarts)
      × Acked u.request_id ctl (handle_update (some e) u ctl)
      × ((handle_update (some e) u ctl).restarts ≡ ctl.restarts)
unfolding handle_restart handle_update
restart-Acked r u e ctl = (
  ack_lifecycle-Acked r.request_id (codes "succeeded") [] [] [] ctl,
  ap suc (ack_lifecycle-restarts r.request_id (codes "succeeded") [] [] [] ctl),
  ack_lifecycle-Acked u.request_id (codes "succeeded") [] [] u.version ctl,
  ap suc (ack_lifecycle-restarts u.request_id (codes "succeeded") [] [] u.version ctl),
  ack_lifecycle-Acked u.request_id (codes "failed") (codes "internal") e [] ctl,
  ack_lifecycle-restarts u.request_id (codes "failed") (codes "internal") e [] ctl,
)
