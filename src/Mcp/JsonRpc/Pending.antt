-- ===== src/Mcp/JsonRpc/Pending.antt =====
-- internal/mcp/mcpstdio/jsonrpc.go: PendingMap, which brings a response to the caller that waits for
-- it. A channel of capacity 1 is named by the number under which it was registered; `chan` says what
-- has been done with each. A send on a closed channel and a second close, which panic in Go, are the
-- result `none`.
pub mod Safety
pub mod Run
pub mod Delivery
pub mod Held
pub mod Closing
pub mod Served
mod Tests
use orbitproxy_go.Prelude.{
  ℕ, ◌+◌, ◌%◌, ◌^◌, Bool, true, false, not, Text, text_Eq, List, [], ◌∷◌, Option, none, some, Dict,
  lookup, delete, insert, length, ◌==◌, if◌then◌else◌,
}
use orbitproxy_go.Prelude.Decimal.{format_int}
use orbitproxy_go.Mcp.JsonRpc.{Message, is_response}

pub data Chan : Type 0 where
  open_empty closed : Chan
  sent : Message → Chan

-- pendingEntry
pub record PendingEntry : Type 0 where
  pub ch : ℕ
  pub original_id : List ℕ
  pub deadline : ℕ

pub record PendingMap : Type 0 where
  pub entries : Dict PendingEntry
  pub next_id : ℕ
  pub chan : ℕ → Chan

unfoldable pub new_pending_map : PendingMap
new_pending_map = record { entries = []; next_id = 1; chan = λ c. open_empty }

abbrev pub set_chan : (ℕ → Chan) → ℕ → Chan → ℕ → Chan
set_chan chan c x d = if c == d then x else chan d

-- Register: the internal id as it is written into the request, and the channel to wait on.
unfoldable pub register : List ℕ → ℕ → ℕ → PendingMap → PendingMap × Text × ℕ
register original_id now timeout pm =
    let id = (pm.next_id + 1) % 2 ^ 64 in
    let entry : PendingEntry = record {
      ch = id;
      original_id = original_id;
      deadline = now + timeout;
    } in
    (
      record pm {
        entries = insert (format_int id) entry pm.entries;
        next_id = id;
        chan = set_chan pm.chan id open_empty;
      },
      format_int id,
      id,
    )

unfoldable pub send : ℕ → Message → PendingMap → Option PendingMap
send c m pm = elim (pm.chan c) [
  | closed ↦ none
  | open_empty ↦ some (record pm { chan = set_chan pm.chan c (sent m) })
  | sent m' ↦ none
]

unfoldable pub close : ℕ → PendingMap → Option PendingMap
close c pm = elim (pm.chan c) [
  | closed ↦ none
  | _ ↦ some (record pm { chan = set_chan pm.chan c closed })
]

-- The goroutine that Register starts, when its timer fires: `e == entry` compares the pointers.
unfoldable pub expire : Text → ℕ → PendingMap → Option PendingMap
expire key ch pm = elim (lookup key pm.entries) [
  | none ↦ some pm
  | some e ↦
      if e.ch == ch then close ch (record pm { entries = delete key pm.entries }) else some pm
]

unfoldable pub dispatch : Message → PendingMap → Option (PendingMap × Bool)
dispatch m pm =
    if is_response m
    then elim (lookup m.id pm.entries) [
      | none ↦ some (pm, false)
      | some e ↦
          elim (send e.ch (record m { id = e.original_id })
            (record pm { entries = delete m.id pm.entries })) [
              | none ↦ none
              | some pm' ↦ some (pm', true)
            ]
    ]
    else some (pm, false)

-- The loop of CloseAll over the entries.
unfoldable pub close_entries : Dict PendingEntry → PendingMap → Option PendingMap
close_entries [] pm = some pm
close_entries ((key, e) ∷ rest) pm = elim (close e.ch (record pm { entries = rest })) [
  | none ↦ none
  | some pm' ↦ close_entries rest pm'
]

unfoldable pub close_all : PendingMap → Option PendingMap
close_all pm = close_entries pm.entries pm

unfoldable pub len : PendingMap → ℕ
len pm = length pm.entries
