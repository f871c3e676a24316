-- ===== src/Service.antt =====
-- service/service.go and internal/backoff/backoff.go: the connection to the edge that is kept alive.
-- A text is an error's message. What dialling, the control session and the context do is a script: one
-- login after another, and how each session ends. A call of a hook is recorded as if the hook were set;
-- OnEndpoints without the endpoints that it is given, and without the calls of watchEndpoints, which
-- come from a goroutine of its own.
pub mod Reconnect
mod Tests
use orbitproxy_go.Prelude.{
  ℕ, zero, suc, ◌+◌, Bool, true, false, not, ◌||◌, Text, codes, List, [], ◌∷◌, ◌++◌, ltb,
  if◌then◌else◌,
}

-- How an error from login stands to the loop: one that is Canceled or DeadlineExceeded by errors.Is,
-- whatever the state of the context, a permanent one, or another.
pub data LoginError : Type 0 where
  cancelled permanent transient : Text → LoginError

-- What a login comes to: a session with its id, or an error.
pub data Login : Type 0 where
  session : Text → Login
  refused : LoginError → Login

-- When the context ends in a round whose login failed: not at all, before onError, in the wait, or
-- before onError and yet the select of the wait picks the timer.
pub data Context : Type 0 where
  live done_at_once done_in_wait done_unseen : Context

-- One round of backoff.Loop.
pub record Try : Type 0 where
  pub login : Login
  pub ctx : Context

-- The calls of the hooks, in order.
pub data Emit : Type 0 where
  connected : Text → Emit
  endpoints : Emit
  reconnecting : ℕ → Text → Emit
  disconnected : Text → Bool → Emit

-- The end of backoff.Loop: no error, the context's error, an error of login, or the script is over and
-- it still tries.
pub data LoopEnd : Type 0 where
  logged_in context_ended still_trying : LoopEnd
  failed : LoginError → LoopEnd

-- The hooks that a login calls when it has a session.
unfoldable pub login_hooks : Text → List Emit
login_hooks id = connected id ∷ endpoints ∷ []

-- onError of loginWithBackoff while the context lives, with the attempt that it counts to.
unfoldable pub on_error : ℕ → ℕ → Text → List Emit
on_error reconnect_attempt attempt e =
    if ltb 0 reconnect_attempt || ltb 1 attempt then reconnecting attempt e ∷ [] else []

-- backoff.Loop with the callbacks of loginWithBackoff; `attempt` is the closure's variable.
unfoldable pub login_loop : ℕ → ℕ → List Try → LoopEnd × List Emit × List Try
login_loop reconnect_attempt attempt [] = (still_trying, [], [])
login_loop reconnect_attempt attempt (t ∷ ts) = elim t.login [
  | session id ↦ (logged_in, login_hooks id, ts)
  | refused (cancelled e) ↦ (failed (cancelled e), [], ts)
  | refused (permanent e) ↦ (failed (permanent e), [], ts)
  | refused (transient e) ↦ elim t.ctx [
    | done_at_once ↦ (context_ended, [], ts)
    | done_in_wait ↦ (context_ended, on_error reconnect_attempt (suc attempt) e, ts)
    | done_unseen ↦ login_loop reconnect_attempt attempt ts
    | live ↦
        let (end, emits, rest) = login_loop reconnect_attempt (suc attempt) ts in
        (end, on_error reconnect_attempt (suc attempt) e ++ emits, rest)
  ]
]

unfoldable pub login_with_backoff : ℕ → List Try → LoopEnd × List Emit × List Try
login_with_backoff reconnect_attempt ts = login_loop reconnect_attempt reconnect_attempt ts

-- How a control session ends: the service's context has ended, Close has taken the session away before
-- the loop looks for it, the edge has ended it for good, or the connection is lost.
pub data SessionEnd : Type 0 where
  service_done no_control lost : SessionEnd
  ended : Text → SessionEnd

-- How keepGatewayConnectionAlive returns, by the error that it stores: the context's, none at all, a
-- login's own, that of a permanent end, or another one of login; `running` is a script that is over.
pub data ServiceEnd : Type 0 where
  context_error no_error running : ServiceEnd
  login_cancelled permanently_disconnected other_error : Text → ServiceEnd

-- What follows a login in keepGatewayConnectionAlive, with what the later sessions come to.
unfoldable pub after_login : LoopEnd → List Emit → ServiceEnd × List Emit → ServiceEnd × List Emit
after_login logged_in told later = (later.0, told ++ later.1)
after_login still_trying told later = (running, told)
after_login context_ended told later = (context_error, told)
after_login (failed (cancelled e)) told later = (login_cancelled e, told)
after_login (failed (permanent e)) told later =
    (permanently_disconnected e, told ++ disconnected e true ∷ [])
after_login (failed (transient e)) told later = (other_error e, told ++ disconnected e false ∷ [])

-- keepGatewayConnectionAlive: a session end and the tries of the login that follows it.
unfoldable pub keep_alive : List (SessionEnd × List Try) → ServiceEnd × List Emit
keep_alive [] = (running, [])
keep_alive ((service_done, ts) ∷ sessions) = (context_error, [])
keep_alive ((no_control, ts) ∷ sessions) = (no_error, [])
keep_alive ((ended reason, ts) ∷ sessions) =
    (permanently_disconnected reason, disconnected reason true ∷ [])
keep_alive ((lost, ts) ∷ sessions) =
    let (login, tries, rest) = login_with_backoff 1 ts in
    after_login login (reconnecting 1 (codes "control connection closed") ∷ tries)
      (keep_alive sessions)
