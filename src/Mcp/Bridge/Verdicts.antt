-- ===== src/Mcp/Bridge/Verdicts.antt =====
-- internal/mcp/mcpstdio/bridge.go on session.go: what the client is told when a Call fails.
use orbitproxy_go.Prelude.{
  ℕ, ◌≡◌, ◌||◌, refl, sym, subst, ◌∙◌, inl, inr, true, false, Text, text_eq, codes, List, [], ◌∷◌,
  ◌++◌, Option, some, arith, if◌then◌else◌, Bool-cases, Option-cases,
}
use orbitproxy_go.Mcp.Errors.Code
use orbitproxy_go.Mcp.Errors.{
  Err, other, deadline_exceeded, canceled, text_of, new_report, with_process, wrap, as_typed,
  is_deadline_exceeded, classify, code_of, is_process_exit, process_exited, failed,
}
use orbitproxy_go.Mcp.JsonRpc.{Message}
use orbitproxy_go.Mcp.JsonRpc.Pending.Served.{Chan-cases}
use orbitproxy_go.Mcp.Session.{
  Session, is_alive, attach_evidence, process_exit_error, touch_activity, call_begin, Woken,
  by_wait, by_exit, by_context, wait_closed, call_wakes,
}
use orbitproxy_go.Mcp.Session.Failures.{IsContextError}
use orbitproxy_go.Mcp.Bridge.{
  error_body, Step, invalidates, answers, is_net_timeout, is_timeout_error, is_pipe_error,
  is_dead_session_error, call_failed,
}

-- The client hears that the child has exited, and the next request gets another one.
abbrev pub child_lost : Text → Err → List Step
child_lost key e =
    invalidates key ∷ answers 502 (error_body Code.exited_at_runtime (text_of e)) ∷ []

-- The client hears of an error, and the session stays.
abbrev pub kept_session : ℕ → Err → List Step
kept_session status e = answers status (error_body Code.internal (text_of e)) ∷ []

-- What a Call comes to that fails before it waits, or when a case of its select wakes it.
abbrev pub refused : Text → Session → Err → List Step
refused key s e = if s.is_closed then kept_session 502 e else child_lost key e

refused_open :
    (key : Text) (s : Session) (e : Err) → s.is_closed ≡ false → refused key s e ≡ child_lost key e
refused_open key s e live = ground (arith, live)

abbrev pub verdict : Text → Session → Woken → Err → List Step
verdict key s by_wait e =
    if s.is_closed || s.has_exited then child_lost key e else kept_session 504 e
verdict key s by_exit e = child_lost key e
verdict key s (by_context deadline_exceeded) e = kept_session 504 e
verdict key s (by_context c) e = kept_session 502 e

call_failed-exit :
    (key message : Text) (s : Session)
    → s.handshake_done ≡ true
    → call_failed key (process_exit_error s message) ≡ child_lost key (process_exit_error s message)
unfolding call_failed process_exit_error attach_evidence with_process new_report is_timeout_error
    is_dead_session_error is_process_exit is_deadline_exceeded code_of classify as_typed
    is_net_timeout text_eq
call_failed-exit key message s ready = rw ready refl

call_failed-closed :
    (key : Text) (s : Session)
    → s.handshake_done ≡ true
    → call_failed key (wait_closed s) ≡ verdict key s by_wait (wait_closed s)
unfolding call_failed wait_closed wrap new_report is_timeout_error is_dead_session_error
    is_process_exit is_deadline_exceeded code_of classify as_typed is_net_timeout is_pipe_error
    text_eq process_exited
call_failed-closed key s ready = elim (Bool-cases (s.is_closed || s.has_exited)) [
  | inr open_running ↦
      let alive : is_alive s ≡ true = unfold is_alive in ground (arith, open_running) in
      rw (open_running, alive) refl
  | inl over ↦
      let dead : is_alive s ≡ false = unfold is_alive in ground (arith, over) in
      rw (over, dead) (call_failed-exit key _ s ready)
]

call_failed-other :
    (key message : Text) → call_failed key (other message) ≡ kept_session 502 (other message)
unfolding call_failed is_timeout_error is_dead_session_error is_process_exit is_deadline_exceeded
    code_of classify as_typed is_net_timeout is_pipe_error text_eq
call_failed-other key message = refl

call_failed-context :
    (key : Text)
    → (call_failed key deadline_exceeded ≡ kept_session 504 deadline_exceeded)
      × (call_failed key canceled ≡ kept_session 502 canceled)
unfolding call_failed is_timeout_error is_dead_session_error is_process_exit is_deadline_exceeded
    code_of classify as_typed is_net_timeout is_pipe_error text_eq
call_failed-context key = (refl, refl)

-- On a session that is ready, a Call that fails before it waits (the child is dead, or the write fails)
-- makes the handler invalidate the session and answer 502 with exited_at_runtime; only for a session
-- that has been closed is the answer a 502 of its own that invalidates nothing.
pub call_failed-refused :
    (key : Text) (m : Message) (now : ℕ) (w : Option Text) (s : Session) {s' : Session} {e : Err}
    → s.handshake_done ≡ true
    → call_begin m now w s ≡ (s', failed e)
    → call_failed key e ≡ refused key s e
unfolding call_begin touch_activity
call_failed-refused key m now w s {s'} {e} ready h = elim (Bool-cases s.is_closed) [
  | inl over ↦
      let same : other (codes "session closed") ≡ e = ground (arith, over, h) in
      subst (λ e. call_failed key e ≡ refused key s e) same (rw over (call_failed-other key _))
  | inr live ↦ elim (Bool-cases (is_alive s)) [
    | inr dead ↦
        let same : process_exit_error s (codes "subprocess already exited") ≡ e =
          ground (arith, live, dead, h) in
        subst (λ e. call_failed key e ≡ refused key s e) same
          (call_failed-exit key _ s ready ∙ sym (refused_open key s _ live))
    | inl alive ↦ elim (Option-cases w) [
      | inl written ↦ absurd (ground (arith, live, alive, written, h))
      | inr (text, bad) ↦
          let same : process_exit_error s' (codes "write stdin: " ++ text) ≡ e =
            ground (arith, live, alive, bad, h) in
          let ready' : s'.handshake_done ≡ true = ground (arith, live, alive, bad, h, ready) in
          subst (λ e. call_failed key e ≡ refused key s e) same
            (call_failed-exit key _ s' ready' ∙ sym (refused_open key s _ live))
    ]
  ]
]

-- On a session that is ready, a Call that waits and fails is answered by what woke it. When it is woken
-- by the child's exit, the session is invalidated and the client gets 502 with exited_at_runtime. A
-- closed channel gives 504 and keeps the session only while the session is open and its child runs;
-- after Close, even if the child still runs, or after an exit it is invalidated, with 502 and
-- exited_at_runtime. A context whose deadline has passed gives 504, and one that is cancelled 502, and
-- both keep the session.
pub call_failed-verdict :
    (key : Text) (c : ℕ) (w : Woken) (s : Session) {e : Err}
    → s.handshake_done ≡ true
    → IsContextError w
    → call_wakes c w s ≡ some (failed e)
    → call_failed key e ≡ verdict key s w e
unfolding call_wakes
call_failed-verdict key c by_wait s {e} ready ctx h = elim (Chan-cases (s.pending.chan c)) [
  | inl (m, answered) ↦ absurd (ground (arith, answered, h))
  | inr (inl over) ↦
      let same : wait_closed s ≡ e = ground (arith, over, h) in
      subst (λ e. call_failed key e ≡ verdict key s by_wait e) same (call_failed-closed key s ready)
  | inr (inr idle) ↦ absurd (ground (arith, idle, h))
]
call_failed-verdict key c by_exit s {e} ready ctx h = elim (Bool-cases s.has_exited) [
  | inl gone ↦
      let same : process_exit_error s (codes "subprocess exited while waiting for response") ≡ e =
        ground (arith, gone, h) in
      subst (λ e. call_failed key e ≡ child_lost key e) same (call_failed-exit key _ s ready)
  | inr running ↦ absurd (ground (arith, running, h))
]
call_failed-verdict key c (by_context d) s {e} ready (inl late) h =
    let same : deadline_exceeded ≡ e = cc (late, h) in
    subst (λ d. call_failed key e ≡ verdict key s (by_context d) e) (sym late)
      (subst (λ e. call_failed key e ≡ kept_session 504 e) same (call_failed-context key).0)
call_failed-verdict key c (by_context d) s {e} ready (inr stopped) h =
    let same : canceled ≡ e = cc (stopped, h) in
    subst (λ d. call_failed key e ≡ verdict key s (by_context d) e) (sym stopped)
      (subst (λ e. call_failed key e ≡ kept_session 502 e) same (call_failed-context key).1)
