-- ===== src/Mcp/Session/Calls.antt =====
-- internal/mcp/mcpstdio/session.go: a Call gets its answer, and none waits for ever.
use orbitproxy_go.Prelude.{
  ℕ, ◌+◌, ◌^◌, ◌≤◌, ◌<◌, ◌≡◌, ◌≢◌, refl, ap, sym, ◌∙◌, ◌⊎◌, inl, inr, true, false, Text, List, none,
  some, length, lookup, text_Eq, [], arith,
}
use orbitproxy_go.Prelude.Decimal.{format_int}
use orbitproxy_go.Mcp.Errors.{Outcome, done, failed}
use orbitproxy_go.Mcp.JsonRpc.{Message, is_response}
use orbitproxy_go.Mcp.JsonRpc.Pending.{
  closed, sent, PendingEntry, PendingMap, new_pending_map, register, expire, close_all,
}
use orbitproxy_go.Mcp.JsonRpc.Pending.Safety.{PendingInv, close_all-PendingInv}
use orbitproxy_go.Mcp.JsonRpc.Pending.Run.{Op, run}
use orbitproxy_go.Mcp.JsonRpc.Pending.Delivery.{AllElsewhere, dispatch-register}
use orbitproxy_go.Mcp.JsonRpc.Pending.Held.{Held, close_entries-Held}
use orbitproxy_go.Mcp.JsonRpc.Pending.Closing.{close_entries_back, close_entries_sent}
use orbitproxy_go.Mcp.JsonRpc.Pending.Served.{run-Served, Chan-cases}
use orbitproxy_go.Mcp.Session.{
  Session, is_alive, touch_activity, out_message, call_begin, by_wait, call_wakes, wait_closed,
  message, read_line, close_session,
}

-- A Call on a session whose child lives, and whose message is written.
call_begin_lem :
    (m : Message) (now : ℕ) (s : Session)
    → s.is_closed ≡ false
    → s.has_exited ≡ false
    → call_begin m now none s ≡ (
      record (touch_activity now s) { pending = (register m.id now s.request_timeout s.pending).0 },
      done (
        out_message m (register m.id now s.request_timeout s.pending).1,
        (register m.id now s.request_timeout s.pending).2,
      ),
    )
unfolding call_begin is_alive
call_begin_lem m now s live running = ground (arith, live, running)

-- A Call on a session whose child lives writes the message under an id of its own, and whatever
-- operations for other requests come between (fewer than 2^63 in all), the response with that id makes
-- the Call return it with the id that the caller had given.
pub call_answered :
    (m : Message) (now : ℕ) (s : Session) (ops : List Op) (resp : Message)
    → s.is_closed ≡ false
    → s.has_exited ≡ false
    → s.pending.next_id + 1 + length ops < 2 ^ 63
    → PendingInv s.pending
    → AllElsewhere (register m.id now s.request_timeout s.pending).1 ops
    → is_response resp ≡ true
    → resp.id ≡ (register m.id now s.request_timeout s.pending).1
    → (s₁ : Session) × (wait : ℕ) × (before : PendingMap) × (s₂ : Session) × (call_begin m now none
          s
        ≡ (s₁, done (out_message m resp.id, wait)))
      × (run ops s₁.pending ≡ some before)
      × (read_line (message resp) (record s₁ { pending = before }) ≡ some s₂)
      × (call_wakes wait by_wait s₂ ≡ some (done (record resp { id = m.id })))
unfolding read_line call_wakes
call_answered m now s ops resp live running b v other response same =
    let pm = (register m.id now s.request_timeout s.pending).0 in
    let wait = (register m.id now s.request_timeout s.pending).2 in
    let (before, after, ran, found, at, _) =
      dispatch-register m.id now s.request_timeout s.pending ops resp b v other response same in
    let s₁ : Session = record (touch_activity now s) { pending = pm } in
    let s₂ : Session = record s₁ { pending = after } in
    (
      s₁,
      wait,
      before,
      s₂,
      call_begin_lem m now s live running
          ∙ ap
              (λ id.
                let r : Session × Outcome (Message × ℕ) = (s₁, done (out_message m id, wait)) in r)
              (sym same),
      ran,
      ground (arith, response, found),
      ground (arith, at),
    )

wakes_sent :
    (c : ℕ) (s : Session) (m : Message)
    → s.pending.chan c ≡ sent m
    → call_wakes c by_wait s ≡ some (done m)
unfolding call_wakes
wakes_sent c s m e = ground (arith, e)

wakes_closed :
    (c : ℕ) (s : Session)
    → s.pending.chan c ≡ closed
    → call_wakes c by_wait s ≡ some (failed (wait_closed s))
unfolding call_wakes
wakes_closed c s e = ground (arith, e)

closed_not_sent : (m : Message) → closed ≢ sent m
closed_not_sent m h = cc h

none_some : (k : Text) {e : PendingEntry} → lookup k ([]) ≡ some e → ⊥
unfolding lookup
none_some k h = cc h

-- After any operations in any order, fewer than 2^62 in all, a Call that waits on a channel that was
-- given out can return, with the response or an error, or else its timer is still to fire, and makes
-- it return the error for a closed channel.
pub call_wakes_by_timer :
    (ops : List Op) (s : Session) (c : ℕ)
    → length ops < 2 ^ 62
    → run ops new_pending_map ≡ some s.pending
    → 1 < c
    → c ≤ s.pending.next_id
    → ((o : Outcome Message) × (call_wakes c by_wait s ≡ some o))
      ⊎ ((pm : PendingMap) × (expire (format_int c) c s.pending ≡ some pm)
          × (call_wakes c by_wait (record s { pending = pm })
              ≡ some (failed (wait_closed (record s { pending = pm })))))
call_wakes_by_timer ops s c few ran given le = elim (run-Served ops s.pending c few ran given le) [
  | inl (m, answered) ↦ inl (done m, wakes_sent c s m answered)
  | inr (inl over) ↦ inl (failed (wait_closed s), wakes_closed c s over)
  | inr (inr (pm, fires, over)) ↦ inr (pm, fires, wakes_closed c (record s { pending = pm }) over)
]

-- Close of a session that is open and whose pending map is well formed, with an entry for each channel
-- that is still open (as in every reachable one), closes the map without a panic, and every Call that waits on a
-- channel that was given out returns: with the response if one had been put into the channel, and with
-- the error for a closed channel if none had.
pub close_session-wakes :
    (s : Session) (c : ℕ)
    → s.is_closed ≡ false
    → PendingInv s.pending
    → Held s.pending
    → 1 < c
    → c ≤ s.pending.next_id
    → (s' : Session) × (close_session s ≡ some (s', true))
      × (((m : Message) × (s.pending.chan c ≡ sent m) × (call_wakes c by_wait s' ≡ some (done m)))
          ⊎ (((m : Message) → s.pending.chan c ≢ sent m)
              × (call_wakes c by_wait s' ≡ some (failed (wait_closed s')))))
unfolding close_session close_all
close_session-wakes s c live v held given le =
    let (pm, ran, v', id, empty) = close_all-PendingInv s.pending v in
    let held' : Held pm = close_entries-Held s.pending.entries s.pending refl v held ran in
    let s' : Session = record s { is_closed = true; pending = pm } in
    (
      s',
      ground (arith, live, ran),
      elim (Chan-cases (pm.chan c)) [
        | inl (m, answered) ↦ inl (
          m,
          close_entries_back c m s.pending.entries s.pending ran answered,
          wakes_sent c s' m answered,
        )
        | inr (inl over) ↦ inr (
          λ m h.
              let kept =
                close_entries_sent c s.pending.next_id m s.pending.entries s.pending v.waiting h
                  ran in
              absurd (closed_not_sent m (sym over ∙ kept)),
          wakes_closed c s' over,
        )
        | inr (inr idle) ↦
            let (e, at, _) = held' c given (omega (arith, le, id)) idle in
            absurd (none_some (format_int c) (sym (ap (lookup (format_int c)) empty) ∙ at))
      ],
    )
