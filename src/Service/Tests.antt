-- ===== src/Service/Tests.antt =====
-- Runs of the reconnect loop.
use orbitproxy_go.Prelude.{◌≡◌, refl, true, codes, List, [], ◌∷◌}
use orbitproxy_go.Service.{
  cancelled, transient, session, refused, Try, live, SessionEnd, lost, ended, connected, endpoints,
  reconnecting, disconnected, login_cancelled, permanently_disconnected, login_hooks, on_error,
  login_loop, login_with_backoff, after_login, keep_alive,
}
use orbitproxy_go.Service.Reconnect.{
  CountsFrom, Told, keep_alive-Told, login_with_backoff-CountsFrom,
}

abbrev tries : List Try
tries =
    record { login = refused (transient (codes "refused")); ctx = live }
    ∷ record { login = refused (transient (codes "refused")); ctx = live }
    ∷ record { login = session (codes "s7"); ctx = live }
    ∷ []

abbrev sessions : List (SessionEnd × List Try)
sessions = (lost, tries) ∷ (ended (codes "machine_deleted"), []) ∷ []

run_lem : keep_alive sessions ≡ (
  permanently_disconnected (codes "machine_deleted"),
  reconnecting 1 (codes "control connection closed")
      ∷ reconnecting 2 (codes "refused")
      ∷ reconnecting 3 (codes "refused")
      ∷ connected (codes "s7")
      ∷ endpoints
      ∷ disconnected (codes "machine_deleted") true
      ∷ [],
)
unfolding keep_alive login_with_backoff login_loop login_hooks on_error after_login
run_lem = refl

-- A login with an error that is DeadlineExceeded stops the service, while its own context lives, and
-- OnDisconnected is not called.
abbrev late : List (SessionEnd × List Try)
late =
    (
      lost,
      record { login = refused (cancelled (codes "context deadline exceeded")); ctx = live } ∷ [],
    )
    ∷ []

late_lem : keep_alive late ≡ (
  login_cancelled (codes "context deadline exceeded"),
  reconnecting 1 (codes "control connection closed") ∷ [],
)
unfolding keep_alive login_with_backoff login_loop after_login
late_lem = refl

keep_alive-Told_example : Told sessions (keep_alive sessions).0 (keep_alive sessions).1
keep_alive-Told_example = keep_alive-Told sessions

login_with_backoff-CountsFrom_test : CountsFrom 1 (login_with_backoff 1 tries).1
login_with_backoff-CountsFrom_test = login_with_backoff-CountsFrom tries
