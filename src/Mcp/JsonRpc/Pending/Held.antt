-- ===== src/Mcp/JsonRpc/Pending/Held.antt =====
-- internal/mcp/mcpstdio/jsonrpc.go: each open channel keeps its entry, whatever the operation.
use orbitproxy_go.Prelude.{
  ℕ, ◌+◌, ◌^◌, ◌≤◌, ◌<◌, ◌≡◌, ◌≢◌, refl, ap, sym, subst, ◌∙◌, inl, inr, Bool, true, Text, text_Eq,
  List, [], ◌∷◌, Option, some, Dict, IsDict, lookup, delete, ◌==◌, ==_iff, arith, lookup-delete,
  delete_fresh, Option-cases, Bool-cases, text_eq_iff, text_eq_refl,
}
use orbitproxy_go.Prelude.Decimal.{format_int}
use orbitproxy_go.Mcp.JsonRpc.{Message, is_response}
use orbitproxy_go.Mcp.JsonRpc.Pending.{
  Chan, open_empty, closed, sent, PendingEntry, PendingMap, set_chan, register, close, expire,
  dispatch, close_entries,
}
use orbitproxy_go.Mcp.JsonRpc.Pending.Safety.{
  PendingInv, Waiting-lookup, taken-PendingInv, close_entries_cons, dispatch_found,
  dispatch_unknown, dispatch_other,
}
use orbitproxy_go.Mcp.JsonRpc.Pending.Delivery.{register_keeps, register_lem}

-- The entry of a channel stands under the channel's id.
abbrev pub HasEntry : PendingMap → ℕ → Type 0
HasEntry pm c = (e : PendingEntry) × (lookup (format_int c) pm.entries ≡ some e) × (e.ch ≡ c)

-- Each channel that was given out and is still open and empty has its entry.
abbrev pub Held : PendingMap → Type 0
Held pm = (c : ℕ) → 1 < c → c ≤ pm.next_id → pm.chan c ≡ open_empty → HasEntry pm c

pub set_chan_self : (chan : ℕ → Chan) (c : ℕ) (x : Chan) → set_chan chan c x c ≡ x
set_chan_self chan c x = ground arith

set_chan_other : (chan : ℕ → Chan) (c d : ℕ) (x : Chan) → c ≢ d → set_chan chan c x d ≡ chan d
set_chan_other chan c d x h = ground arith

pub register-Held :
    (oid : List ℕ) (now timeout : ℕ) (pm : PendingMap)
    → pm.next_id + 1 < 2 ^ 63
    → PendingInv pm
    → Held pm
    → Held (register oid now timeout pm).0
register-Held oid now timeout pm b v held c given le idle =
    let (pm', key, ch) = register oid now timeout pm in
    let (is_key, at) = register_lem oid now timeout pm in
    elim (Bool-cases (ch == c)) [
      | inl mine ↦
          let same : ch ≡ c = (==_iff ch c).0 mine in
          (_, ap (λ k. lookup k pm'.entries) (ap format_int (sym same) ∙ sym is_key) ∙ at, same)
      | inr other ↦
          let differ : ch ≢ c = λ h. cc (other, (==_iff ch c).1 h) in
          let old : pm.chan c ≡ open_empty =
            unfold register in sym (set_chan_other pm.chan ch c open_empty differ) ∙ idle in
          let before : c ≤ pm.next_id = unfold register in omega (arith, le, differ, b) in
          let (e, at', is_c) = held c given before old in
          (e, register_keeps (format_int c) e oid now timeout pm b v at', is_c)
    ]

pub some_injective {ℓ} : {A : Type ℓ} {a b : A} → some a ≡ some b → a ≡ b
some_injective h = cc h

taken-Held :
    (key : Text) (e : PendingEntry) (x : Chan) (pm : PendingMap)
    → x ≢ open_empty
    → PendingInv pm
    → lookup key pm.entries ≡ some e
    → Held pm
    → Held (record pm { entries = delete key pm.entries; chan = set_chan pm.chan e.ch x })
taken-Held key e x pm used v at held c given le idle = elim (Bool-cases (e.ch == c)) [
  | inl mine ↦
      let same : e.ch ≡ c = (==_iff e.ch c).0 mine in
      absurd (used (sym (set_chan_self pm.chan e.ch x) ∙ ap (set_chan pm.chan e.ch x) same ∙ idle))
  | inr other ↦
      let differ : e.ch ≢ c = λ h. cc (other, (==_iff e.ch c).1 h) in
      let (f, at', is_c) = held c given le (sym (set_chan_other pm.chan e.ch c x differ) ∙ idle) in
      let (is_key, _, _) = Waiting-lookup pm.chan pm.next_id key e pm.entries v.waiting at in
      let apart : key ≢ format_int c = λ h. differ (
        ap (λ (o : PendingEntry). o.ch)
          (some_injective (sym at ∙ ap (λ k. lookup k pm.entries) h ∙ at'))
        ∙ is_c) in
      (
        f,
        ground (
          arith,
          lookup-delete key (format_int c) pm.entries,
          at',
          λ (h : key ≡ format_int c). apart h,
          text_eq_iff key (format_int c),
        ),
        is_c,
      )
]

closed_used : closed ≢ open_empty
closed_used h = cc h

sent_used : (m : Message) → sent m ≢ open_empty
sent_used m h = cc h

-- The timer's own entry.
expire_mine :
    (key : Text) (ch : ℕ) (e : PendingEntry) (pm : PendingMap) {pm' : PendingMap}
    → lookup key pm.entries ≡ some e
    → (e.ch == ch) ≡ true
    → pm.chan ch ≡ open_empty
    → expire key ch pm ≡ some pm'
    → record pm { entries = delete key pm.entries; chan = set_chan pm.chan ch closed } ≡ pm'
unfolding expire delete close
expire_mine key ch e pm at mine empty ran =
    some_injective (sym (rw (at, expire) (rw mine (rw (empty, close) refl))) ∙ ran)

kept_fst :
    {pm pm' : PendingMap} {b b' : Bool}
    → ◌≡◌ {A = Option (PendingMap × Bool)} (some (pm, b)) (some (pm', b'))
    → pm ≡ pm'
kept_fst h = cc h

pub expire-Held :
    (key : Text) (ch : ℕ) (pm : PendingMap) {pm' : PendingMap}
    → PendingInv pm
    → Held pm
    → expire key ch pm ≡ some pm'
    → Held pm'
expire-Held key ch pm {pm'} v held ran = elim (Option-cases (lookup key pm.entries)) [
  | inl absent ↦
      let same : pm ≡ pm' = unfold expire in ground (arith, absent, ran) in subst Held same held
  | inr (e, at) ↦ elim (Bool-cases (e.ch == ch)) [
    | inr other ↦
        let same : pm ≡ pm' = unfold expire in ground (arith, at, other, ran) in
        subst Held same held
    | inl mine ↦
        let is_ch : e.ch ≡ ch = (==_iff e.ch ch).0 mine in
        let (_, empty, _) = Waiting-lookup pm.chan pm.next_id key e pm.entries v.waiting at in
        let empty' : pm.chan ch ≡ open_empty = ap pm.chan (sym is_ch) ∙ empty in
        let same : record pm { entries = delete key pm.entries; chan = set_chan pm.chan ch closed }
            ≡ pm' =
          expire_mine key ch e pm at mine empty' ran in
        subst Held same (
          subst
            (λ c.
              Held
                (record pm { entries = delete key pm.entries; chan = set_chan pm.chan c closed }))
            is_ch (taken-Held key e closed pm closed_used v at held))
  ]
]

pub dispatch-Held :
    (m : Message) (pm : PendingMap) {pm' : PendingMap} {found : Bool}
    → PendingInv pm
    → Held pm
    → dispatch m pm ≡ some (pm', found)
    → Held pm'
dispatch-Held m pm {pm'} {found} v held ran = elim (Bool-cases (is_response m)) [
  | inr other ↦
      let same : pm ≡ pm' = kept_fst (sym (dispatch_other m pm other) ∙ ran) in subst Held same held
  | inl response ↦ elim (Option-cases (lookup m.id pm.entries)) [
    | inl absent ↦
        let same : pm ≡ pm' = kept_fst (sym (dispatch_unknown m pm absent) ∙ ran) in
        subst Held same held
    | inr (e, at) ↦ subst Held (kept_fst (sym (dispatch_found m e pm v response at) ∙ ran)) (
        taken-Held m.id e (sent (record m { id = e.original_id })) pm
          (sent_used (record m { id = e.original_id })) v at held)
  ]
]

pub close_entries-Held :
    (m : Dict PendingEntry) (pm : PendingMap) {pm' : PendingMap}
    → pm.entries ≡ m
    → PendingInv pm
    → Held pm
    → close_entries m pm ≡ some pm'
    → Held pm'
close_entries-Held [] pm {pm'} at v held ran =
    let same : pm ≡ pm' = unfold close_entries in some_injective ran in subst Held same held
close_entries-Held ((key, e) ∷ m) pm {pm'} at v held ran =
    let first : lookup key pm.entries ≡ some e =
      ap (lookup key) at ∙ (unfold lookup in rw (text_eq_refl key) refl) in
    let d : IsDict ((key, e) ∷ m) = subst IsDict at v.keys in
    let gone : delete key pm.entries ≡ m =
      ap (delete key) at ∙ (unfold delete in rw (text_eq_refl key) (delete_fresh key m d.0)) in
    let rest : PendingMap = record pm { entries = m; chan = set_chan pm.chan e.ch closed } in
    let same : record pm { entries = delete key pm.entries; chan = set_chan pm.chan e.ch closed }
        ≡ rest =
      ap
        (λ es.
          let x : PendingMap = record pm { entries = es; chan = set_chan pm.chan e.ch closed } in x)
        gone in
    let (_, empty, _) = Waiting-lookup pm.chan pm.next_id key e pm.entries v.waiting first in
    close_entries-Held m rest refl
      (subst PendingInv same (taken-PendingInv key e closed pm v first))
      (subst Held same (taken-Held key e closed pm closed_used v first held))
      (sym (close_entries_cons key e m pm empty) ∙ ran)
