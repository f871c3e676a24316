-- ===== src/Mcp/Session/Tests.antt =====
-- Runs of a session.
use orbitproxy_go.Prelude.{
  ℕ, ◌≤◌, ◌≡◌, ◌≢◌, refl, ◌⊎◌, inl, true, false, codes, text_Eq, [], ◌∷◌, none, some, arith,
}
use orbitproxy_go.Prelude.Decimal.{format_int, decimal, decimal_loop}
use orbitproxy_go.Mcp.Errors.{Err, Outcome, done, failed}
use orbitproxy_go.Mcp.JsonRpc.{Message, is_response}
use orbitproxy_go.Mcp.JsonRpc.Pending.{sent, PendingMap, new_pending_map, register, expire}
use orbitproxy_go.Mcp.JsonRpc.Pending.Safety.{PendingInv, register-PendingInv}
use orbitproxy_go.Mcp.JsonRpc.Pending.Held.{Held, register-Held}
use orbitproxy_go.Mcp.JsonRpc.Pending.Run.{
  registers, expires, step, run, new_pending_map-PendingInv,
}
use orbitproxy_go.Mcp.Session.{
  Session, process_exit_error, is_alive, out_message, call_begin, by_wait, call_wakes, wait_closed,
  message, read_line, close_session,
}
use orbitproxy_go.Mcp.Session.Handshake.{handshake_error, shake_hands, finish_session}
use orbitproxy_go.Mcp.Session.Calls.{call_answered, call_wakes_by_timer, close_session-wakes}
use orbitproxy_go.Mcp.Session.Failures.{HandshakeFailure, shake_hands-HandshakeFailure}
use orbitproxy_go.Mcp.Session.Starts.{Explained, finish_session-Explained}

abbrev pub session_of : PendingMap → Session
session_of pm = record {
  pending = pm;
  is_closed = false;
  has_exited = false;
  exit_code = none;
  stderr_tail = [];
  stdout_tail = [];
  stdout_noise = [];
  handshake_done = false;
  request_timeout = 5;
  last_activity = 0;
  server_name = [];
  server_version = [];
  init_result = [];
}

abbrev pub fresh : Session
fresh = session_of new_pending_map

abbrev ping : Message
ping = record {
  json_rpc = codes "\"2.0\"";
  id = codes "\"a\"";
  method = codes "\"ping\"";
  params = [];
  result = [];
  error = [];
}

-- The response to the first request that is written.
abbrev pong : Message
pong = record {
  json_rpc = codes "\"2.0\"";
  id = (codes "2");
  method = [];
  params = [];
  result = (codes "true");
  error = [];
}

call_answered_example :
    (s₁ : Session) × (wait : ℕ) × (before : PendingMap) × (s₂ : Session) × (call_begin ping 0 none
        fresh
      ≡ (s₁, done (out_message ping pong.id, wait)))
    × (run (registers (codes "8") 1 5 ∷ expires (codes "3") 3 ∷ []) s₁.pending ≡ some before)
    × (read_line (message pong) (record s₁ { pending = before }) ≡ some s₂)
    × (call_wakes wait by_wait s₂ ≡ some (done (record pong { id = ping.id })))
unfolding is_response register new_pending_map format_int decimal decimal_loop
call_answered_example =
    call_answered ping 0 fresh (registers (codes "8") 1 5 ∷ expires (codes "3") 3 ∷ []) pong refl
      refl (unfold new_pending_map in omega arith) new_pending_map-PendingInv
      (tt, ((λ h. ground arith), tt)) refl refl

one_waits : Session
one_waits = session_of (register (codes "7") 0 5 new_pending_map).0

one_waits_lem :
    (run (registers (codes "7") 0 5 ∷ []) new_pending_map ≡ some one_waits.pending)
    × (2 ≤ one_waits.pending.next_id)
unfolding run step one_waits register new_pending_map
one_waits_lem = (refl, omega arith)

call_wakes_by_timer_example :
    ((o : Outcome Message) × (call_wakes 2 by_wait one_waits ≡ some o))
    ⊎ ((pm : PendingMap) × (expire (format_int 2) 2 one_waits.pending ≡ some pm)
        × (call_wakes 2 by_wait (record one_waits { pending = pm })
            ≡ some (failed (wait_closed (record one_waits { pending = pm })))))
call_wakes_by_timer_example =
    call_wakes_by_timer (registers (codes "7") 0 5 ∷ []) one_waits 2 (omega arith) one_waits_lem.0
      (omega arith) one_waits_lem.1

one_waits-PendingInv : PendingInv one_waits.pending
unfolding one_waits new_pending_map
one_waits-PendingInv =
    register-PendingInv (codes "7") 0 5 new_pending_map (omega arith) new_pending_map-PendingInv

one_waits-Held : Held one_waits.pending
unfolding one_waits new_pending_map
one_waits-Held =
    register-Held (codes "7") 0 5 new_pending_map (omega arith) new_pending_map-PendingInv
      (λ c given le idle. absurd (omega (arith, given, le)))

close_session-wakes_example :
    (s' : Session) × (close_session one_waits ≡ some (s', true))
    × (((m : Message) × (one_waits.pending.chan 2 ≡ sent m)
          × (call_wakes 2 by_wait s' ≡ some (done m)))
        ⊎ (((m : Message) → one_waits.pending.chan 2 ≢ sent m)
            × (call_wakes 2 by_wait s' ≡ some (failed (wait_closed s')))))
unfolding one_waits
close_session-wakes_example =
    close_session-wakes one_waits 2 refl one_waits-PendingInv one_waits-Held (omega arith)
      one_waits_lem.1

-- A child that is gone before `initialize` is written.
abbrev dead : Session
dead = record fresh { has_exited = true }

abbrev gone : Err
gone = process_exit_error dead (codes "subprocess already exited")

on_start : Err
on_start = handshake_error fresh (codes "30s") (codes "initialize") gone

shake_hands-HandshakeFailure_example : HandshakeFailure on_start
unfolding shake_hands call_begin is_alive on_start handshake_error
shake_hands-HandshakeFailure_example =
    shake_hands-HandshakeFailure fresh dead fresh (codes "30s") (failed gone) none refl refl
      (inl (ping, 0, none, dead, gone, refl, refl)) refl

finish_session-Explained_test :
    Explained fresh none (true ∷ false ∷ []) (finish_session fresh none (true ∷ false ∷ []))
finish_session-Explained_test = finish_session-Explained fresh none (true ∷ false ∷ [])
