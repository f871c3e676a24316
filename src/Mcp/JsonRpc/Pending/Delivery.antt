-- ===== src/Mcp/JsonRpc/Pending/Delivery.antt =====
-- internal/mcp/mcpstdio/jsonrpc.go: a response reaches the caller that waits for it, whatever happens
-- to the other requests in between, and reaches nobody twice.
use orbitproxy_go.Prelude.{
  ℕ, ◌+◌, ◌%◌, ◌^◌, ◌≤◌, ◌<◌, ◌≡◌, ◌≢◌, refl, ap, Bool, true, false, Text, text_Eq, List, [], ◌∷◌,
  some, lookup, delete, insert, length, arith, lookup-delete, lookup-insert, text_eq_iff,
  text_eq_refl,
}
use orbitproxy_go.Prelude.Decimal.{format_int}
use orbitproxy_go.Mcp.JsonRpc.{Message, is_response}
use orbitproxy_go.Mcp.JsonRpc.Pending.{
  sent, PendingEntry, PendingMap, set_chan, register, send, close, expire, dispatch,
}
use orbitproxy_go.Mcp.JsonRpc.Pending.Safety.{
  PendingInv, Waiting-lookup, fresh_id, dispatch-PendingInv, expire-PendingInv, register-PendingInv,
  dispatch_found, dispatch_unknown,
}
use orbitproxy_go.Mcp.JsonRpc.Pending.Run.{
  Op, registers, expires, dispatches, closes_all, step, run, map_of,
}

-- An operation that is aimed at another request than `key`.
abbrev pub Elsewhere : Text → Op → Type 0
Elsewhere key (registers oid now timeout) = Unit
Elsewhere key (expires k ch) = k ≢ key
Elsewhere key (dispatches m) = m.id ≢ key
Elsewhere key closes_all = ⊥

abbrev pub AllElsewhere : Text → List Op → Type 0
AllElsewhere key [] = Unit
AllElsewhere key (op ∷ ops) = Elsewhere key op × AllElsewhere key ops

pub register_keeps :
    (key : Text) (e : PendingEntry) (oid : List ℕ) (now timeout : ℕ) (pm : PendingMap)
    → pm.next_id + 1 < 2 ^ 63
    → PendingInv pm
    → lookup key pm.entries ≡ some e
    → lookup key (register oid now timeout pm).0.entries ≡ some e
unfolding register
register_keeps key e oid now timeout pm b v at =
    let id = (pm.next_id + 1) % 2 ^ 64 in
    let (same, _, old) = Waiting-lookup pm.chan pm.next_id key e pm.entries v.waiting at in
    let absent = fresh_id pm.chan pm.next_id id pm.entries v.waiting (omega arith) (omega arith) in
    let entry : PendingEntry = record { ch = id; original_id = oid; deadline = now + timeout } in
    ground (
      arith,
      lookup-insert (format_int id) key entry pm.entries,
      text_eq_iff (format_int id) key,
      λ (h : format_int id ≡ key). ap (λ k. lookup k pm.entries) h,
    )

expire_keeps :
    (key k : Text) (ch : ℕ) (e : PendingEntry) (pm pm' : PendingMap)
    → k ≢ key
    → lookup key pm.entries ≡ some e
    → expire k ch pm ≡ some pm'
    → lookup key pm'.entries ≡ some e
unfolding expire close
expire_keeps key k ch e pm pm' other at ran =
    ground (arith, lookup-delete k key pm.entries, text_eq_iff k key)

dispatch_keeps :
    (key : Text) (m : Message) (e : PendingEntry) (pm pm' : PendingMap) (found : Bool)
    → m.id ≢ key
    → lookup key pm.entries ≡ some e
    → dispatch m pm ≡ some (pm', found)
    → lookup key pm'.entries ≡ some e
unfolding dispatch send
dispatch_keeps key m e pm pm' found other at ran =
    ground (arith, lookup-delete m.id key pm.entries, text_eq_iff m.id key)

step_keeps :
    (key : Text) (op : Op) (e : PendingEntry) (pm : PendingMap)
    → pm.next_id + 1 < 2 ^ 63
    → PendingInv pm
    → Elsewhere key op
    → lookup key pm.entries ≡ some e
    → (pm' : PendingMap) × (step op pm ≡ some pm')
      × PendingInv pm'
      × (pm'.next_id ≤ pm.next_id + 1)
      × (lookup key pm'.entries ≡ some e)
unfolding step register
step_keeps key (registers oid now timeout) e pm b v other at = (
  _,
  refl,
  register-PendingInv oid now timeout pm b v,
  omega arith,
  register_keeps key e oid now timeout pm b v at,
)
step_keeps key (expires k ch) e pm b v other at =
    let (pm', run, v', id) = expire-PendingInv k ch pm v in
    (pm', run, v', omega (arith, id), expire_keeps key k ch e pm pm' other at run)
step_keeps key (dispatches m) e pm b v other at =
    let (pm', found, run, v', id) = dispatch-PendingInv m pm v in
    (pm', ap map_of run, v', omega (arith, id), dispatch_keeps key m e pm pm' found other at run)
step_keeps key closes_all e pm b v other at = absurd other

run_keeps :
    (key : Text) (ops : List Op) (e : PendingEntry) (pm : PendingMap)
    → pm.next_id + length ops < 2 ^ 63
    → PendingInv pm
    → AllElsewhere key ops
    → lookup key pm.entries ≡ some e
    → (pm' : PendingMap) × (run ops pm ≡ some pm')
      × PendingInv pm'
      × (lookup key pm'.entries ≡ some e)
unfolding run
run_keeps key [] e pm b v other at = (pm, refl, v, at)
run_keeps key (op ∷ ops) e pm b v other at =
    let (pm', one, v', id, at') = step_keeps key op e pm (omega arith) v other.0 at in
    let (pm'', rest, v'', at'') = run_keeps key ops e pm' (omega (arith, id)) v' other.1 at' in
    (pm'', rw (one, run) rest, v'', at'')

pub register_lem :
    (oid : List ℕ) (now timeout : ℕ) (pm : PendingMap)
    → let (pm', key, ch) = register oid now timeout pm in
      (key ≡ format_int ch)
      × (lookup key pm'.entries
          ≡ some (record { ch = ch; original_id = oid; deadline = now + timeout }))
unfolding register lookup insert
register_lem oid now timeout pm = (refl, rw text_eq_refl refl)

-- Register gives out an id and a channel. Whatever then happens to other requests (further Registers,
-- responses with other ids, other timers; no CloseAll; fewer than 2^63 in all), the response with that
-- id is sent on that channel with the caller's own id put back, Dispatch answers true, and a second
-- response with the id is refused.
pub dispatch-register :
    (oid : List ℕ) (now timeout : ℕ) (pm : PendingMap) (ops : List Op) (m : Message)
    → pm.next_id + 1 + length ops < 2 ^ 63
    → PendingInv pm
    → AllElsewhere (register oid now timeout pm).1 ops
    → is_response m ≡ true
    → m.id ≡ (register oid now timeout pm).1
    → (before after : PendingMap) × (run ops (register oid now timeout pm).0 ≡ some before)
      × (dispatch m before ≡ some (after, true))
      × (after.chan (register oid now timeout pm).2 ≡ sent (record m { id = oid }))
      × (dispatch m after ≡ some (after, false))
dispatch-register oid now timeout pm ops m b v other response same =
    let pm' = (register oid now timeout pm).0 in
    let key = (register oid now timeout pm).1 in
    let ch = (register oid now timeout pm).2 in
    let entry : PendingEntry = record { ch = ch; original_id = oid; deadline = now + timeout } in
    let next_lem : pm'.next_id ≡ pm.next_id + 1 = unfold register in omega arith in
    let (before, ran, v', at) =
      run_keeps key ops entry pm' (omega (arith, next_lem))
        (register-PendingInv oid now timeout pm (omega arith) v) other
        (register_lem oid now timeout pm).1 in
    let at' : lookup m.id before.entries ≡ some entry = rw same at in
    let after : PendingMap = record before {
      entries = delete m.id before.entries;
      chan = set_chan before.chan ch (sent (record m { id = oid }));
    } in
    (
      before,
      after,
      ran,
      dispatch_found m entry before v' response at',
      ground arith,
      dispatch_unknown m after
          (ground (arith, lookup-delete m.id m.id before.entries, text_eq_refl m.id)),
    )
