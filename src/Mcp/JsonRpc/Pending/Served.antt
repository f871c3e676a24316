-- ===== src/Mcp/JsonRpc/Pending/Served.antt =====
-- internal/mcp/mcpstdio/jsonrpc.go: nobody who waits on a channel of PendingMap is left behind.
use orbitproxy_go.Prelude.{
  ℕ, ◌+◌, ◌^◌, ◌≤◌, ◌<◌, ◌≡◌, refl, ap, sym, subst, ◌∙◌, ◌⊎◌, inl, inr, Bool, text_Eq, List, [],
  ◌∷◌, Option, none, some, delete, length, ==_iff, arith,
}
use orbitproxy_go.Prelude.Decimal.{format_int}
use orbitproxy_go.Mcp.JsonRpc.{Message}
use orbitproxy_go.Mcp.JsonRpc.Pending.{
  Chan, open_empty, closed, sent, PendingMap, new_pending_map, set_chan, close, expire, dispatch,
  close_all,
}
use orbitproxy_go.Mcp.JsonRpc.Pending.Safety.{PendingInv, Waiting-lookup}
use orbitproxy_go.Mcp.JsonRpc.Pending.Run.{
  Op, registers, expires, dispatches, closes_all, map_of, step, run, step-PendingInv,
  new_pending_map-PendingInv,
}
use orbitproxy_go.Mcp.JsonRpc.Pending.Held.{
  Held, HasEntry, set_chan_self, some_injective, register-Held, expire-Held, dispatch-Held,
  close_entries-Held,
}

map_of-found :
    (o : Option (PendingMap × Bool)) {pm' : PendingMap}
    → map_of o ≡ some pm'
    → (found : Bool) × (o ≡ some (pm', found))
map_of-found none h = absurd (cc h)
map_of-found (some (pm, found)) h = (found, cc h)

step-Held :
    (op : Op) (pm : PendingMap) {pm' : PendingMap}
    → pm.next_id + 1 < 2 ^ 63
    → PendingInv pm
    → Held pm
    → step op pm ≡ some pm'
    → Held pm'
unfolding step
step-Held (registers oid now timeout) pm b v held ran =
    subst Held (some_injective ran) (register-Held oid now timeout pm b v held)
step-Held (expires key ch) pm b v held ran = expire-Held key ch pm v held ran
step-Held (dispatches m) pm b v held ran =
    let (found, got) = map_of-found (dispatch m pm) ran in dispatch-Held m pm v held got
step-Held closes_all pm b v held ran =
    close_entries-Held pm.entries pm refl v held (unfold close_all in ran)

run-Held :
    (ops : List Op) (pm : PendingMap) {pm' : PendingMap}
    → pm.next_id + length ops < 2 ^ 63
    → PendingInv pm
    → Held pm
    → run ops pm ≡ some pm'
    → PendingInv pm' × Held pm'
unfolding run
run-Held [] pm b v held ran =
    (subst PendingInv (some_injective ran) v, subst Held (some_injective ran) held)
run-Held (op ∷ ops) pm {pm'} b v held ran =
    let (next, one, v', id) = step-PendingInv op pm (omega arith) v in
    run-Held ops next (omega (arith, id)) v' (step-Held op pm (omega arith) v held one)
      (ground (arith, one, ran))

-- What a caller that waits on a channel can count on.
abbrev pub Served : PendingMap → ℕ → Type 0
Served pm c =
    ((m : Message) × (pm.chan c ≡ sent m))
    ⊎ (pm.chan c ≡ closed)
    ⊎ ((pm' : PendingMap) × (expire (format_int c) c pm ≡ some pm') × (pm'.chan c ≡ closed))

Held-Served : (pm : PendingMap) (c : ℕ) → PendingInv pm → HasEntry pm c → Served pm c
unfolding expire close
Held-Served pm c v (e, at, is_c) =
    let (_, empty, _) =
      Waiting-lookup pm.chan pm.next_id (format_int c) e pm.entries v.waiting at in
    let empty' : pm.chan c ≡ open_empty = ap pm.chan (sym is_c) ∙ empty in
    inr (
      inr (
        record pm { entries = delete (format_int c) pm.entries; chan = set_chan pm.chan c closed },
        rw (at, expire) (rw ((==_iff e.ch c).1 is_c) (rw (empty', close) refl)),
        set_chan_self pm.chan c closed,
      ))

pub Chan-cases : (x : Chan) → ((m : Message) × (x ≡ sent m)) ⊎ (x ≡ closed) ⊎ (x ≡ open_empty)
Chan-cases open_empty = inr (inr refl)
Chan-cases closed = inr (inl refl)
Chan-cases (sent m) = inl (m, refl)

new_pending_map-Held : Held new_pending_map
unfolding new_pending_map
new_pending_map-Held c given le idle = absurd (omega (arith, given, le))

-- After any operations in any order, fewer than 2^62 in all, each channel that Register has given out
-- holds the response, or is closed, or its request is still in the map, so that the request's timer
-- closes the channel when it fires: whoever waits on it gets an answer or the timeout, and is not left
-- behind.
pub run-Served :
    (ops : List Op) (pm : PendingMap) (c : ℕ)
    → length ops < 2 ^ 62
    → run ops new_pending_map ≡ some pm
    → 1 < c
    → c ≤ pm.next_id
    → Served pm c
run-Served ops pm c few ran given le =
    let (v, held) =
      run-Held ops new_pending_map (unfold new_pending_map in omega (arith, few))
        new_pending_map-PendingInv new_pending_map-Held ran in
    elim (Chan-cases (pm.chan c)) [
      | inl answered ↦ inl answered
      | inr (inl over) ↦ inr (inl over)
      | inr (inr idle) ↦ Held-Served pm c v (held c given le idle)
    ]
