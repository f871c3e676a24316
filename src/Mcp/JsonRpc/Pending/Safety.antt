-- ===== src/Mcp/JsonRpc/Pending/Safety.antt =====
-- internal/mcp/mcpstdio/jsonrpc.go: what every PendingMap satisfies, and that each operation keeps it
-- and neither sends on a closed channel nor closes one twice.
use orbitproxy_go.Prelude.{
  ℕ, ◌+◌, ◌%◌, ◌^◌, ◌≤◌, ◌<◌, ◌≡◌, refl, ap, sym, subst, ◌∙◌, inl, inr, Bool, true, false, Text,
  text_Eq, List, [], ◌∷◌, Option, none, some, Dict, IsDict, lookup, delete, insert, ◌==◌, arith,
  lookup-delete, delete-IsDict, insert-IsDict, Option-cases, Bool-cases, text_eq_iff,
}
use orbitproxy_go.Prelude.Decimal.{format_int, format_int-injective}
use orbitproxy_go.Mcp.JsonRpc.{Message, is_response}
use orbitproxy_go.Mcp.JsonRpc.Pending.{
  Chan, open_empty, closed, sent, PendingEntry, PendingMap, set_chan, register, send, close, expire,
  dispatch, close_entries, close_all,
}

-- Every entry stands under its own id, which has been given out, and its channel is open and empty.
abbrev pub Waiting : (ℕ → Chan) → ℕ → Dict PendingEntry → Type 0
Waiting chan n [] = Unit
Waiting chan n ((key, e) ∷ m) =
    (key ≡ format_int e.ch) × (chan e.ch ≡ open_empty) × (e.ch ≤ n) × Waiting chan n m

pub record PendingInv (pm : PendingMap) : Type 0 where
  pub keys : IsDict pm.entries
  pub waiting : Waiting pm.chan pm.next_id pm.entries

pub Waiting-delete :
    (chan : ℕ → Chan) (n : ℕ) (k : Text) (m : Dict PendingEntry)
    → Waiting chan n m
    → Waiting chan n (delete k m)
unfolding delete
Waiting-delete chan n k [] w = tt
Waiting-delete chan n k ((j, e) ∷ m) w = ground (arith, Waiting-delete chan n k m w.3)

pub Waiting-lookup :
    (chan : ℕ → Chan) (n : ℕ) (k : Text) (e : PendingEntry) (m : Dict PendingEntry)
    → Waiting chan n m
    → lookup k m ≡ some e
    → (k ≡ format_int e.ch) × (chan e.ch ≡ open_empty) × (e.ch ≤ n)
unfolding lookup
Waiting-lookup chan n k e [] w at = cc
Waiting-lookup chan n k e ((j, d) ∷ m) w at =
    ground (arith, Waiting-lookup chan n k e m w.3, text_eq_iff j k)

Waiting-later :
    (chan : ℕ → Chan) (n n' : ℕ) (m : Dict PendingEntry)
    → n ≤ n'
    → Waiting chan n m
    → Waiting chan n' m
Waiting-later chan n n' [] h w = tt
Waiting-later chan n n' ((j, e) ∷ m) h w =
    (w.0, w.1, omega (arith, w.2), Waiting-later chan n n' m h w.3)

-- A channel whose id is not a key can change.
Waiting-set_chan :
    (chan : ℕ → Chan) (n c : ℕ) (x : Chan) (m : Dict PendingEntry)
    → Waiting chan n m
    → lookup (format_int c) m ≡ none
    → Waiting (set_chan chan c x) n m
unfolding lookup
Waiting-set_chan chan n c x [] w absent = tt
Waiting-set_chan chan n c x ((j, e) ∷ m) w absent =
    let same_key : (c ≡ e.ch → format_int c ≡ format_int e.ch) = λ h. ap format_int h in
    ground (arith, Waiting-set_chan chan n c x m w.3, text_eq_iff j (format_int c), same_key)

-- An id that has not been given out yet is no key.
pub fresh_id :
    (chan : ℕ → Chan) (n c : ℕ) (m : Dict PendingEntry)
    → Waiting chan n m
    → n < c
    → c < 2 ^ 63
    → lookup (format_int c) m ≡ none
fresh_id chan n c m w h b = elim (Option-cases (lookup (format_int c) m)) [
  | inl absent ↦ absent
  | inr (e, at) ↦
      let (same, _, old) = Waiting-lookup chan n (format_int c) e m w at in
      absurd (omega (arith, format_int-injective c e.ch b (omega (arith, old)) same))
]

pub register-PendingInv :
    (oid : List ℕ) (now timeout : ℕ) (pm : PendingMap)
    → pm.next_id + 1 < 2 ^ 63
    → PendingInv pm
    → PendingInv (register oid now timeout pm).0
unfolding register insert
register-PendingInv oid now timeout pm b v =
    let id = (pm.next_id + 1) % 2 ^ 64 in
    let id_lem : id ≡ pm.next_id + 1 = omega arith in
    let absent = fresh_id pm.chan pm.next_id id pm.entries v.waiting (omega arith) (omega arith) in
    record {
      keys =
          insert-IsDict (format_int id)
            (record { ch = id; original_id = oid; deadline = now + timeout }) pm.entries v.keys;
      waiting = (
        refl,
        ground arith,
        omega arith,
        Waiting-delete _ _ _ _ (
            Waiting-set_chan pm.chan id id open_empty pm.entries
              (Waiting-later pm.chan pm.next_id id pm.entries (omega arith) v.waiting) absent),
      );
    }

-- An entry is taken out and its channel used for the last time.
pub taken-PendingInv :
    (key : Text) (e : PendingEntry) (x : Chan) (pm : PendingMap)
    → PendingInv pm
    → lookup key pm.entries ≡ some e
    → PendingInv (record pm { entries = delete key pm.entries; chan = set_chan pm.chan e.ch x })
taken-PendingInv key e x pm v at =
    let (same, _, _) = Waiting-lookup pm.chan pm.next_id key e pm.entries v.waiting at in
    let absent : lookup (format_int e.ch) (delete key pm.entries) ≡ none =
      ground (
        arith,
        lookup-delete key (format_int e.ch) pm.entries,
        text_eq_iff key (format_int e.ch),
      ) in
    record {
      keys = delete-IsDict key pm.entries v.keys;
      waiting =
          Waiting-set_chan pm.chan pm.next_id e.ch x (delete key pm.entries)
            (Waiting-delete pm.chan pm.next_id key pm.entries v.waiting) absent;
    }

-- A result that is there, well formed, and has given out no further id.
abbrev pub Fine : PendingMap → Option PendingMap → Type 0
Fine pm r = (pm' : PendingMap) × (r ≡ some pm') × PendingInv pm' × (pm'.next_id ≡ pm.next_id)

pub expire-PendingInv :
    (key : Text) (ch : ℕ) (pm : PendingMap) → PendingInv pm → Fine pm (expire key ch pm)
unfolding expire close
expire-PendingInv key ch pm v = elim (Option-cases (lookup key pm.entries)) [
  | inl absent ↦ (pm, rw (absent, expire) refl, v, refl)
  | inr (e, at) ↦ elim (Bool-cases (e.ch == ch)) [
    | inr other ↦ (pm, rw (at, expire) (rw other refl), v, refl)
    | inl mine ↦
        let same : e.ch ≡ ch = ground arith in
        let (_, empty, _) = Waiting-lookup pm.chan pm.next_id key e pm.entries v.waiting at in
        let empty' : pm.chan ch ≡ open_empty = ap pm.chan (sym same) ∙ empty in
        (
          record pm { entries = delete key pm.entries; chan = set_chan pm.chan ch closed },
          rw (at, expire) (rw mine (rw empty' refl)),
          subst
              (λ c.
                PendingInv
                  (record pm { entries = delete key pm.entries; chan = set_chan pm.chan c closed }))
              same (taken-PendingInv key e closed pm v at),
          refl,
        )
  ]
]

-- A response that somebody waits for.
pub dispatch_found :
    (m : Message) (e : PendingEntry) (pm : PendingMap)
    → PendingInv pm
    → is_response m ≡ true
    → lookup m.id pm.entries ≡ some e
    → dispatch m pm
      ≡ some (
        record pm {
          entries = delete m.id pm.entries;
          chan = set_chan pm.chan e.ch (sent (record m { id = e.original_id }));
        },
        true,
      )
unfolding dispatch send
dispatch_found m e pm v response at =
    let (_, empty, _) = Waiting-lookup pm.chan pm.next_id m.id e pm.entries v.waiting at in
    rw (response, at, empty) refl

pub dispatch_unknown :
    (m : Message) (pm : PendingMap)
    → lookup m.id pm.entries ≡ none
    → dispatch m pm ≡ some (pm, false)
unfolding dispatch
dispatch_unknown m pm absent = elim (Bool-cases (is_response m)) [
  | inl response ↦ rw (response, absent) refl
  | inr other ↦ rw other refl
]

pub dispatch_other :
    (m : Message) (pm : PendingMap) → is_response m ≡ false → dispatch m pm ≡ some (pm, false)
unfolding dispatch
dispatch_other m pm other = rw other refl

pub dispatch-PendingInv :
    (m : Message) (pm : PendingMap)
    → PendingInv pm
    → (pm' : PendingMap) × (found : Bool) × (dispatch m pm ≡ some (pm', found))
      × PendingInv pm'
      × (pm'.next_id ≡ pm.next_id)
dispatch-PendingInv m pm v = elim (Bool-cases (is_response m)) [
  | inr other ↦ (pm, false, dispatch_other m pm other, v, refl)
  | inl response ↦ elim (Option-cases (lookup m.id pm.entries)) [
    | inl absent ↦ (pm, false, dispatch_unknown m pm absent, v, refl)
    | inr (e, at) ↦
        (_, true, dispatch_found m e pm v response at, taken-PendingInv m.id e _ pm v at, refl)
  ]
]

pub close_entries_cons :
    (key : Text) (e : PendingEntry) (m : Dict PendingEntry) (pm : PendingMap)
    → pm.chan e.ch ≡ open_empty
    → close_entries ((key, e) ∷ m) pm
      ≡ close_entries m (record pm { entries = m; chan = set_chan pm.chan e.ch closed })
unfolding close_entries close
close_entries_cons key e m pm empty = rw (empty, close_entries, close) refl

close_entries_lem :
    (m : Dict PendingEntry) (pm : PendingMap)
    → pm.entries ≡ m
    → PendingInv pm
    → (pm' : PendingMap) × (close_entries m pm ≡ some pm')
      × PendingInv pm'
      × (pm'.next_id ≡ pm.next_id)
      × (pm'.entries ≡ [])
unfolding close_entries
close_entries_lem [] pm at v = (pm, refl, v, refl, at)
close_entries_lem ((key, e) ∷ m) pm at v =
    let d : IsDict ((key, e) ∷ m) = subst IsDict at v.keys in
    let w : Waiting pm.chan pm.next_id ((key, e) ∷ m) =
      subst (Waiting pm.chan pm.next_id) at v.waiting in
    let rest : PendingMap = record pm { entries = m; chan = set_chan pm.chan e.ch closed } in
    let rest-Inv : PendingInv rest = record {
      keys = d.1;
      waiting =
          Waiting-set_chan pm.chan pm.next_id e.ch closed m w.3
            (ap (λ k. lookup k m) (sym w.0) ∙ d.0);
    } in
    let (pm', run, v', id, empty) = close_entries_lem m rest refl rest-Inv in
    (pm', close_entries_cons key e m pm w.1 ∙ run, v', id, empty)

pub close_all-PendingInv :
    (pm : PendingMap)
    → PendingInv pm
    → (pm' : PendingMap) × (close_all pm ≡ some pm')
      × PendingInv pm'
      × (pm'.next_id ≡ pm.next_id)
      × (pm'.entries ≡ [])
unfolding close_all
close_all-PendingInv pm v = close_entries_lem pm.entries pm refl v
