-- ===== src/Service/Reconnect.antt =====
-- service/service.go: when the service stops reconnecting, and what it tells its hooks.
use orbitproxy_go.Prelude.{
  ℕ, suc, ◌≡◌, ◌≢◌, refl, ap, subst, sym, ◌∙◌, ◌⊎◌, inl, inr, true, codes, List, [], ◌∷◌, ◌++◌, ltb,
  arith, append_assoc,
}
use orbitproxy_go.Service.{
  cancelled, permanent, transient, Login, session, refused, live, done_at_once, done_in_wait,
  done_unseen, Context, Try, Emit, connected, endpoints, reconnecting, disconnected, LoopEnd,
  logged_in, context_ended, still_trying, failed, login_hooks, login_loop, login_with_backoff,
  on_error, SessionEnd, service_done, no_control, lost, ended, ServiceEnd, context_error, no_error,
  running, login_cancelled, permanently_disconnected, other_error, keep_alive, after_login,
}

-- The reconnecting calls count up by one from a number on; a login's own calls end the list, and no
-- other call is in it.
abbrev pub CountsFrom : ℕ → List Emit → Type 0
CountsFrom n [] = Unit
CountsFrom n (reconnecting k e ∷ es) = (k ≡ suc n) × CountsFrom (suc n) es
CountsFrom n (connected id ∷ es) = es ≡ endpoints ∷ []
CountsFrom n (endpoints ∷ es) = ⊥
CountsFrom n (disconnected e p ∷ es) = ⊥

login_loop-CountsFrom :
    (r attempt : ℕ) (ts : List Try)
    → ltb 0 r ≡ true
    → CountsFrom attempt (login_loop r attempt ts).1
unfolding login_loop on_error login_hooks
login_loop-CountsFrom r attempt [] h = tt
login_loop-CountsFrom r attempt (t ∷ ts) h =
    ground (arith, login_loop-CountsFrom r (suc attempt) ts, login_loop-CountsFrom r attempt ts)

-- In one outage the hook OnReconnecting is called with the attempts 2, 3, 4, … after the call with 1 that
-- began it, one for each failed login that is followed by a wait, and after it come only OnConnected and
-- OnEndpoints, once each, of the login that succeeds.
pub login_with_backoff-CountsFrom : (ts : List Try) → CountsFrom 1 (login_with_backoff 1 ts).1
unfolding login_with_backoff
login_with_backoff-CountsFrom ts = login_loop-CountsFrom 1 1 ts refl

-- One member of a list has a property.
abbrev pub Any {ℓ} : {A : Type ℓ} → (A → Type 0) → List A → Type 0
Any P [] = ⊥
Any P (x ∷ xs) = P x ⊎ Any P xs

-- Why a loop over the tries ends; a transient error is never the end.
abbrev EndsBy : List Try → LoopEnd → Type 0
EndsBy ts (failed (transient e)) = ⊥
EndsBy ts (failed (permanent e)) = Any (λ (t : Try). t.login ≡ refused (permanent e)) ts
EndsBy ts (failed (cancelled e)) = Any (λ (t : Try). t.login ≡ refused (cancelled e)) ts
EndsBy ts context_ended = Any (λ (t : Try). t.ctx ≢ live) ts
EndsBy ts logged_in = Unit
EndsBy ts still_trying = Unit

EndsBy-later : (t : Try) (ts : List Try) (end : LoopEnd) → EndsBy ts end → EndsBy (t ∷ ts) end
EndsBy-later t ts (failed (transient e)) h = absurd h
EndsBy-later t ts (failed (permanent e)) h = inr h
EndsBy-later t ts (failed (cancelled e)) h = inr h
EndsBy-later t ts context_ended h = inr h
EndsBy-later t ts logged_in h = tt
EndsBy-later t ts still_trying h = tt

-- The end after a round, by what the round comes to.
round-EndsBy :
    (r attempt : ℕ) (t : Try) (ts : List Try) (l : Login) (c : Context)
    → t.login ≡ l
    → t.ctx ≡ c
    → EndsBy ts (login_loop r attempt ts).0
    → EndsBy ts (login_loop r (suc attempt) ts).0
    → EndsBy (t ∷ ts) (login_loop r attempt (t ∷ ts)).0
unfolding login_loop
round-EndsBy r attempt t ts (session id) c is at same next = rw (is, login_loop) tt
round-EndsBy r attempt t ts (refused (cancelled e)) c is at same next =
    rw (is, login_loop) (inl refl)
round-EndsBy r attempt t ts (refused (permanent e)) c is at same next =
    rw (is, login_loop) (inl refl)
round-EndsBy r attempt t ts (refused (transient e)) live is at same next =
    rw (is, login_loop) (rw at (EndsBy-later _ ts _ next))
round-EndsBy r attempt t ts (refused (transient e)) done_unseen is at same next =
    rw (is, login_loop) (rw at (EndsBy-later _ ts _ same))
round-EndsBy r attempt t ts (refused (transient e)) done_at_once is at same next =
    rw (is, login_loop) (rw at (inl (λ h. cc h)))
round-EndsBy r attempt t ts (refused (transient e)) done_in_wait is at same next =
    rw (is, login_loop) (rw at (inl (λ h. cc h)))

login_loop-EndsBy : (r attempt : ℕ) (ts : List Try) → EndsBy ts (login_loop r attempt ts).0
login_loop-EndsBy r attempt [] = unfold login_loop in tt
login_loop-EndsBy r attempt (t ∷ ts) =
    round-EndsBy r attempt t ts t.login t.ctx refl refl (login_loop-EndsBy r attempt ts)
      (login_loop-EndsBy r (suc attempt) ts)

-- OnDisconnected is not called.
abbrev pub NoDisconnected : List Emit → Type 0
NoDisconnected [] = Unit
NoDisconnected (disconnected e p ∷ es) = ⊥
NoDisconnected (reconnecting k e ∷ es) = NoDisconnected es
NoDisconnected (connected id ∷ es) = NoDisconnected es
NoDisconnected (endpoints ∷ es) = NoDisconnected es

CountsFrom-NoDisconnected : (n : ℕ) (es : List Emit) → CountsFrom n es → NoDisconnected es
CountsFrom-NoDisconnected n [] c = tt
CountsFrom-NoDisconnected n (reconnecting k e ∷ es) c = CountsFrom-NoDisconnected (suc n) es c.1
CountsFrom-NoDisconnected n (connected id ∷ es) c = subst NoDisconnected (sym c) tt
CountsFrom-NoDisconnected n (endpoints ∷ es) c = absurd c
CountsFrom-NoDisconnected n (disconnected e p ∷ es) c = absurd c

NoDisconnected-append :
    (xs ys : List Emit) → NoDisconnected xs → NoDisconnected ys → NoDisconnected (xs ++ ys)
NoDisconnected-append [] ys p q = q
NoDisconnected-append (reconnecting k e ∷ xs) ys p q = NoDisconnected-append xs ys p q
NoDisconnected-append (connected id ∷ xs) ys p q = NoDisconnected-append xs ys p q
NoDisconnected-append (endpoints ∷ xs) ys p q = NoDisconnected-append xs ys p q
NoDisconnected-append (disconnected e b ∷ xs) ys p q = absurd p

-- What has happened when the service is where it is, and what the hooks have been told.
abbrev pub Told : List (SessionEnd × List Try) → ServiceEnd → List Emit → Type 0
Told sessions running emits = NoDisconnected emits
Told sessions no_error emits =
    NoDisconnected emits × Any (λ (s : SessionEnd × List Try). s.0 ≡ no_control) sessions
Told sessions context_error emits =
    NoDisconnected emits
    × Any
        (λ (s : SessionEnd × List Try). (s.0 ≡ service_done) ⊎ Any (λ (t : Try). t.ctx ≢ live) s.1)
        sessions
Told sessions (login_cancelled e) emits =
    NoDisconnected emits
    × Any (λ (s : SessionEnd × List Try). Any (λ (t : Try). t.login ≡ refused (cancelled e)) s.1)
        sessions
Told sessions (permanently_disconnected reason) emits =
    ((es : List Emit) × (emits ≡ es ++ disconnected reason true ∷ []) × NoDisconnected es)
    × Any
        (λ (s : SessionEnd × List Try).
          (s.0 ≡ ended reason) ⊎ Any (λ (t : Try). t.login ≡ refused (permanent reason)) s.1)
        sessions
Told sessions (other_error e) emits = ⊥

Told-later :
    (s : SessionEnd × List Try) (sessions : List (SessionEnd × List Try)) (end : ServiceEnd)
    (xs ys : List Emit)
    → NoDisconnected xs
    → Told sessions end ys
    → Told (s ∷ sessions) end (xs ++ ys)
Told-later s ss running xs ys p t = NoDisconnected-append xs ys p t
Told-later s ss no_error xs ys p (q, why) = (NoDisconnected-append xs ys p q, inr why)
Told-later s ss context_error xs ys p (q, why) = (NoDisconnected-append xs ys p q, inr why)
Told-later s ss (login_cancelled e) xs ys p (q, why) = (NoDisconnected-append xs ys p q, inr why)
Told-later s ss (permanently_disconnected reason) xs ys p ((es, e, o), why) = (
  (
    xs ++ es,
    ap (λ l. xs ++ l) e ∙ sym (append_assoc xs es (disconnected reason true ∷ [])),
    NoDisconnected-append xs es p o,
  ),
  inr why,
)
Told-later s ss (other_error e) xs ys p t = absurd t

after_login-Told :
    (ts : List Try) (sessions : List (SessionEnd × List Try)) (end : LoopEnd) (told : List Emit)
    (later : ServiceEnd × List Emit)
    → EndsBy ts end
    → NoDisconnected told
    → Told sessions later.0 later.1
    → Told ((lost, ts) ∷ sessions) (after_login end told later).0 (after_login end told later).1
unfolding after_login
after_login-Told ts ss logged_in told later f o t = Told-later _ ss later.0 told later.1 o t
after_login-Told ts ss still_trying told later f o t = o
after_login-Told ts ss context_ended told later f o t = (o, inl (inr f))
after_login-Told ts ss (failed (cancelled e)) told later f o t = (o, inl f)
after_login-Told ts ss (failed (permanent e)) told later f o t = ((told, refl, o), inl (inr f))
after_login-Told ts ss (failed (transient e)) told later f o t = absurd f

-- Whatever the logins and the sessions do: the service stops with the context's error only if its
-- context has ended, with an error of login of its own only if that is Canceled or DeadlineExceeded,
-- without an error only if Close has taken the control session away, and otherwise only because a session
-- or a login was ended for good; it never stops with a login error that it should have retried.
-- OnDisconnected is called exactly once, as the last of the calls, with that reason and `permanent` true,
-- if the service was disconnected for good, and not at all in the other cases or while it runs. (The calls
-- of OnEndpoints by watchEndpoints are left out.)
pub keep_alive-Told :
    (sessions : List (SessionEnd × List Try))
    → Told sessions (keep_alive sessions).0 (keep_alive sessions).1
unfolding keep_alive login_with_backoff
keep_alive-Told [] = tt
keep_alive-Told ((service_done, ts) ∷ sessions) = (tt, inl (inl refl))
keep_alive-Told ((no_control, ts) ∷ sessions) = (tt, inl refl)
keep_alive-Told ((ended reason, ts) ∷ sessions) = (([], refl, tt), inl (inl refl))
keep_alive-Told ((lost, ts) ∷ sessions) =
    after_login-Told ts sessions (login_with_backoff 1 ts).0
      (reconnecting 1 (codes "control connection closed") ∷ (login_with_backoff 1 ts).1)
      (keep_alive sessions) (login_loop-EndsBy 1 1 ts)
      (CountsFrom-NoDisconnected 1 (login_with_backoff 1 ts).1 (login_with_backoff-CountsFrom ts))
      (keep_alive-Told sessions)
