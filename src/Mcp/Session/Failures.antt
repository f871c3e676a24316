-- ===== src/Mcp/Session/Failures.antt =====
-- internal/mcp/mcpstdio/session.go: the codes of a handshake that fails, and how NewSession ends.
use orbitproxy_go.Prelude.{
  ℕ, ◌≡◌, refl, ap, sym, subst, ◌∙◌, ◌⊎◌, inl, inr, false, not, ◌&&◌, length, ltb, text_eq, Text,
  codes, ◌++◌, Option, none, some, arith, Bool-cases, Option-cases,
}
use orbitproxy_go.Mcp.Errors.Code
use orbitproxy_go.Mcp.Errors.{
  handshake, Report, Err, deadline_exceeded, canceled, other, typed, caused, as_typed,
  process_exited, is_deadline_exceeded, wrap, new_report, with_process, Outcome, done, failed,
}
use orbitproxy_go.Mcp.JsonRpc.{Message}
use orbitproxy_go.Mcp.JsonRpc.Pending.Held.{some_injective}
use orbitproxy_go.Mcp.JsonRpc.Pending.Served.{Chan-cases}
use orbitproxy_go.Mcp.Session.{
  Session, is_alive, attach_evidence, touch_activity, process_exit_error, call_begin, Woken,
  by_wait, by_exit, by_context, wait_closed, call_wakes, send_notification,
}
use orbitproxy_go.Mcp.Session.Handshake.{change_typed, other_error, handshake_error, shake_hands}

-- The errors of a Call before the handshake is done: an Error of the handshake with the code of an
-- exit, an Error for a deadline, a deadline, or an error without a code.
abbrev Early : Err → Type 0
Early e =
    ((r : Report) × (e ≡ typed r) × (r.code ≡ Code.exited_on_start))
    ⊎ ((r : Report) × (e ≡ caused r deadline_exceeded) × (r.exit_code ≡ none))
    ⊎ (as_typed e ≡ none)

process_exit_error-Early :
    (s : Session) (message : Text) → s.handshake_done ≡ false → Early (process_exit_error s message)
unfolding process_exit_error attach_evidence with_process new_report
process_exit_error-Early s message early = inl (_, refl, rw early refl)

wait_closed-Early : (s : Session) → s.handshake_done ≡ false → Early (wait_closed s)
unfolding wait_closed wrap new_report
wait_closed-Early s early = elim (Bool-cases (is_alive s)) [
  | inl alive ↦ rw alive (inr (inl (_, refl, refl)))
  | inr dead ↦ rw dead (process_exit_error-Early s _ early)
]

call_begin-Early :
    (m : Message) (now : ℕ) (w : Option Text) (s : Session) {s' : Session} {e : Err}
    → s.handshake_done ≡ false
    → call_begin m now w s ≡ (s', failed e)
    → Early e
unfolding call_begin as_typed touch_activity
call_begin-Early m now w s {s'} {e} early h = elim (Bool-cases s.is_closed) [
  | inl over ↦
      let same : other (codes "session closed") ≡ e = ground (arith, over, h) in
      subst Early same (inr (inr refl))
  | inr live ↦ elim (Bool-cases (is_alive s)) [
    | inr dead ↦
        let same : process_exit_error s (codes "subprocess already exited") ≡ e =
          ground (arith, live, dead, h) in
        subst Early same (process_exit_error-Early s _ early)
    | inl alive ↦ elim (Option-cases w) [
      | inl written ↦ absurd (ground (arith, live, alive, written, h))
      | inr (text, bad) ↦
          let same : process_exit_error s' (codes "write stdin: " ++ text) ≡ e =
            ground (arith, live, alive, bad, h) in
          let early' : s'.handshake_done ≡ false = ground (arith, live, alive, bad, h, early) in
          subst Early same (process_exit_error-Early s' _ early')
    ]
  ]
]

-- The errors of a context.
abbrev pub IsContextError : Woken → Type 0
IsContextError by_wait = Unit
IsContextError by_exit = Unit
IsContextError (by_context e) = (e ≡ deadline_exceeded) ⊎ (e ≡ canceled)

call_wakes-Early :
    (c : ℕ) (w : Woken) (s : Session) {e : Err}
    → s.handshake_done ≡ false
    → IsContextError w
    → call_wakes c w s ≡ some (failed e)
    → Early e
unfolding call_wakes as_typed
call_wakes-Early c by_wait s {e} early ctx h = elim (Chan-cases (s.pending.chan c)) [
  | inl (m, answered) ↦ absurd (ground (arith, answered, h))
  | inr (inl over) ↦
      let same : wait_closed s ≡ e = ground (arith, over, h) in
      subst Early same (wait_closed-Early s early)
  | inr (inr idle) ↦ absurd (ground (arith, idle, h))
]
call_wakes-Early c by_exit s {e} early ctx h = elim (Bool-cases s.has_exited) [
  | inl gone ↦
      let same : process_exit_error s (codes "subprocess exited while waiting for response") ≡ e =
        ground (arith, gone, h) in
      subst Early same (process_exit_error-Early s _ early)
  | inr running ↦ absurd (ground (arith, running, h))
]
call_wakes-Early c (by_context d) s {e} early (inl late) h =
    let same : deadline_exceeded ≡ e = cc (late, h) in subst Early same (inr (inr refl))
call_wakes-Early c (by_context d) s {e} early (inr stopped) h =
    let same : canceled ≡ e = cc (stopped, h) in subst Early same (inr (inr refl))

-- The three codes of a handshake that fails.
abbrev pub HandshakeFailure : Err → Type 0
HandshakeFailure e =
    (r : Report) × (as_typed e ≡ some r)
    × (r.stage ≡ handshake)
    × ((r.code ≡ Code.exited_on_start)
        ⊎ (r.code ≡ Code.handshake_timeout)
        ⊎ (r.code ≡ Code.handshake_rejected))

other_error-untyped :
    (s : Session) (within step : Text) (e : Err)
    → as_typed e ≡ none
    → HandshakeFailure (other_error s within step e)
unfolding other_error change_typed wrap new_report attach_evidence with_process as_typed
other_error-untyped s within step e plain = elim (Bool-cases (is_deadline_exceeded e)) [
  | inl late ↦ rw (late, other_error) (_, refl, refl, inr (inl refl))
  | inr in_time ↦ rw (in_time, other_error) (rw plain (_, refl, refl, inr (inr refl)))
]

handshake_error-Early :
    (s : Session) (within step : Text) (e : Err)
    → Early e
    → HandshakeFailure (handshake_error s within step e)
unfolding handshake_error other_error change_typed wrap new_report attach_evidence with_process
    as_typed is_deadline_exceeded process_exited
handshake_error-Early s within step e (inl (r, is, code)) = rw is (elim (Option-cases r.exit_code) [
  | inl running ↦ rw running (_, refl, refl, inl code)
  | inr (n, gone) ↦ rw gone (_, refl, refl, inl refl)
])
handshake_error-Early s within step e (inr (inl (r, is, running))) =
    rw is (rw running (_, refl, refl, inr (inl refl)))
handshake_error-Early s within step e (inr (inr plain)) =
    rw (plain, handshake_error) (other_error-untyped s within step e plain)

send_notification-Early :
    (w : Option Text) (s : Session) {e : Err}
    → s.handshake_done ≡ false
    → send_notification w s ≡ some e
    → Early e
unfolding send_notification as_typed
send_notification-Early w s {e} early h = elim (Bool-cases s.is_closed) [
  | inl over ↦
      let same : other (codes "session closed") ≡ e = ground (arith, over, h) in
      subst Early same (inr (inr refl))
  | inr live ↦ elim (Bool-cases (is_alive s)) [
    | inr dead ↦
        let same : process_exit_error s (codes "subprocess already exited") ≡ e =
          ground (arith, live, dead, h) in
        subst Early same (process_exit_error-Early s _ early)
    | inl alive ↦ elim (Option-cases w) [
      | inl written ↦ absurd (ground (arith, live, alive, written, h))
      | inr (text, bad) ↦
          let same : process_exit_error s (codes "write stdin: " ++ text) ≡ e =
            ground (arith, live, alive, bad, h) in
          subst Early same (process_exit_error-Early s _ early)
    ]
  ]
]

failed_injective : {d e : Err} → ◌≡◌ {A = Outcome Message} (failed d) (failed e) → d ≡ e
failed_injective h = cc h

-- The result of a Call of `initialize`: it fails before it waits, or it is woken.
abbrev pub CallResult : Session → Outcome Message → Type 0
CallResult s resp =
    ((m : Message) × (now : ℕ) × (w : Option Text) × (s' : Session) × (e : Err) × (call_begin m now
          w s
        ≡ (s', failed e))
      × (resp ≡ failed e))
    ⊎ ((c : ℕ) × (w : Woken) × IsContextError w × (call_wakes c w s ≡ some resp))

CallResult-Early :
    (s : Session) (resp : Outcome Message) {e : Err}
    → s.handshake_done ≡ false
    → CallResult s resp
    → resp ≡ failed e
    → Early e
CallResult-Early s resp early (inl (m, now, w, s', d, begun, is)) h =
    subst Early (failed_injective (sym is ∙ h)) (call_begin-Early m now w s early begun)
CallResult-Early s resp early (inr (c, w, ctx, woken)) h =
    call_wakes-Early c w s early ctx (woken ∙ ap some h)

-- Whatever a Call of `initialize` and the notification after it come to before the handshake is done (a
-- refusal, a write that fails, an answer, the timer, the exit of the child, the end of the context),
-- a handshake that fails gives an Error of the stage handshake whose code is exited_on_start,
-- handshake_timeout or handshake_rejected.
pub shake_hands-HandshakeFailure :
    (s s₀ s₁ : Session) (within : Text) (resp : Outcome Message) (w : Option Text) {e : Err}
    → s₀.handshake_done ≡ false
    → s₁.handshake_done ≡ false
    → CallResult s₀ resp
    → shake_hands s within resp (send_notification w s₁) ≡ some e
    → HandshakeFailure e
unfolding shake_hands as_typed new_report
shake_hands-HandshakeFailure s s₀ s₁ within (failed d) w {e} early early' called h =
    subst HandshakeFailure (some_injective h) (
      handshake_error-Early s within (codes "initialize") d
        (CallResult-Early s₀ (failed d) early called refl))
shake_hands-HandshakeFailure s s₀ s₁ within (done resp) w {e} early early' called h =
    elim (Bool-cases (ltb 0 (length resp.error) && not (text_eq resp.error (codes "null")))) [
      | inl refused ↦
          let same : typed (
                new_report handshake Code.handshake_rejected
                  (codes "initialize rejected: " ++ resp.error))
              ≡ e =
            ground (arith, refused, h) in
          subst HandshakeFailure same (_, refl, refl, inr (inr refl))
      | inr accepted ↦ elim (Option-cases (send_notification w s₁)) [
        | inl sent_off ↦ absurd (ground (arith, accepted, sent_off, h))
        | inr (d, bad) ↦
            let same : handshake_error s within (codes "initialized notify") d ≡ e =
              ground (arith, accepted, bad, h) in
            subst HandshakeFailure same (
              handshake_error-Early s within (codes "initialized notify") d
                (send_notification-Early w s₁ early' bad))
      ]
    ]
