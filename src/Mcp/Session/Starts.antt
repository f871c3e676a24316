-- ===== src/Mcp/Session/Starts.antt =====
-- internal/mcp/mcpstdio/session.go: how NewSession ends.
use orbitproxy_go.Prelude.{
  ◌≡◌, refl, sym, subst, ◌⊎◌, inl, inr, Bool, true, false, List, [], ◌∷◌, Option, none, some, arith,
}
use orbitproxy_go.Mcp.Errors.Code
use orbitproxy_go.Mcp.Errors.{Err, new_report, with_process, as_typed, code_of, classify, text_of}
use orbitproxy_go.Mcp.Session.{Session, attach_evidence}
use orbitproxy_go.Mcp.Session.Handshake.{wait_settled, Ended, started, gave_up, finish_session}

-- The child was seen alive in each round.
abbrev pub AllAlive : List Bool → Type 0
AllAlive [] = Unit
AllAlive (alive ∷ rounds) = (alive ≡ true) × AllAlive rounds

-- What the end of NewSession says of the handshake and of the time after it.
abbrev pub Explained : Session → Option Err → List Bool → Ended → Type 0
Explained s shaken rounds (started s') =
    (shaken ≡ none) × AllAlive rounds × (s' ≡ record s { handshake_done = true })
Explained s shaken rounds (gave_up e code message) =
    (code ≡ code_of e)
    × (message ≡ text_of e)
    × ((shaken ≡ some e) ⊎ ((shaken ≡ none) × (code ≡ Code.exited_after_handshake)))

wait_settled_lem :
    (s : Session) (rounds : List Bool)
    → ((wait_settled s rounds ≡ none) × AllAlive rounds)
      ⊎ ((e : Err) × (wait_settled s rounds ≡ some e) × (code_of e ≡ Code.exited_after_handshake))
unfolding wait_settled code_of classify as_typed attach_evidence with_process new_report
wait_settled_lem s [] = inl (refl, tt)
wait_settled_lem s (false ∷ rounds) = inr (_, refl, refl)
wait_settled_lem s (true ∷ rounds) = elim (wait_settled_lem s rounds) [
  | inl (lives, all) ↦ inl (lives, (refl, all))
  | inr (e, ends, code) ↦ inr (e, ends, code)
]

-- NewSession, once the child runs, gives the session only if the handshake succeeded and the child was
-- alive whenever the loop after it looked; else it gives the error of the handshake, or that of a child
-- that has exited after it, and the diagnostic that it reports has the code and the text of the error
-- that the caller gets.
pub finish_session-Explained :
    (s : Session) (shaken : Option Err) (rounds : List Bool)
    → Explained s shaken rounds (finish_session s shaken rounds)
unfolding finish_session
finish_session-Explained s (some e) rounds = (refl, refl, inl refl)
finish_session-Explained s none rounds =
    let s' : Session = record s { handshake_done = true } in
    elim (wait_settled_lem s' rounds) [
      | inl (lives, all) ↦
          let ends : started s' ≡ finish_session s none rounds = ground (arith, lives) in
          subst (Explained s none rounds) ends (refl, all, refl)
      | inr (e, dies, code) ↦
          let ends : gave_up e Code.exited_after_handshake (text_of e)
              ≡ finish_session s none rounds =
            ground (arith, dies) in
          subst (Explained s none rounds) ends (sym code, refl, inr (refl, refl))
    ]
