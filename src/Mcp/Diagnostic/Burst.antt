-- ===== src/Mcp/Diagnostic/Burst.antt =====
-- internal/mcp/mcpstdio/diagnostic.go: what the Deduplicator answers, in terms of the times at which
-- the same endpoint and code were recorded before.
use orbitproxy_go.Prelude.{
  ℕ, suc, ◌+◌, ◌-◌, ◌^◌, ◌≤◌, ◌<◌, ◌≡◌, refl, sym, subst, ◌∙◌, inl, inr, Bool, true, false, Text,
  pair_Eq, pair_eq, pair_eq_iff, List, [], ◌∷◌, Option, none, some, lookup, insert, lookup-insert,
  length, ltb, ◌==◌, arith, if◌then◌else◌, inc_int, Option-cases, Bool-cases,
}
use orbitproxy_go.Mcp.Diagnostic.{
  Diagnostic, Deduplicator, DeduplicatorEntry, new_deduplicator, deduplicator_key, unix_milli,
  record_first, record_repeat, record_diag,
}

-- The times of the events with a key, the newest first.
abbrev pub times : Text × Text → List (ℕ × Diagnostic) → List ℕ
times k [] = []
times k ((t, diag) ∷ older) =
    let rest = times k older in if pair_eq (deduplicator_key diag) k then t ∷ rest else rest

-- The newest event and those before it with no gap longer than the window: how many they are, and when
-- the first of them happened.
abbrev pub burst_size : ℕ → List ℕ → ℕ
burst_size window [] = 0
burst_size window (t ∷ []) = 1
burst_size window (t ∷ u ∷ ts) =
    let rest = burst_size window (u ∷ ts) in if ltb window (t - u) then 1 else suc rest

abbrev pub burst_start : ℕ → List ℕ → ℕ
burst_start window [] = 0
burst_start window (t ∷ []) = t
burst_start window (t ∷ u ∷ ts) =
    let rest = burst_start window (u ∷ ts) in if ltb window (t - u) then t else rest

-- The Deduplicator after the events of a history, the newest first.
unfoldable pub after : ℕ → List (ℕ × Diagnostic) → Deduplicator
after window [] = new_deduplicator window
after window ((t, diag) ∷ older) = (record_diag diag t (after window older)).0

-- What the entry of a key holds.
abbrev pub Holds : ℕ → List ℕ → Option DeduplicatorEntry → Type 0
Holds window [] o = o ≡ none
Holds window (t ∷ ts) o =
    (e : DeduplicatorEntry) × (o ≡ some e)
    × (e.last ≡ t)
    × (e.count ≡ burst_size window (t ∷ ts))
    × (e.first ≡ burst_start window (t ∷ ts))

burst_size-le : (window : ℕ) (ts : List ℕ) → burst_size window ts ≤ length ts
burst_size-le window [] = omega arith
burst_size-le window (t ∷ []) = omega arith
burst_size-le window (t ∷ u ∷ ts) = ground (arith, burst_size-le window (u ∷ ts))

pair_eq_refl : (k : Text × Text) → pair_eq k k ≡ true
pair_eq_refl k = (pair_eq_iff k k).1 refl

times-le : (k : Text × Text) (h : List (ℕ × Diagnostic)) → length (times k h) ≤ length h
times-le k [] = omega arith
times-le k ((t, diag) ∷ h) = ground (arith, times-le k h)

after-window : (window : ℕ) (h : List (ℕ × Diagnostic)) → (after window h).window ≡ window
unfolding after record_diag record_first record_repeat new_deduplicator
after-window window [] = refl
after-window window ((t, diag) ∷ h) = ground (arith, after-window window h)

burst_size_pos : (window t : ℕ) (ts : List ℕ) → 1 ≤ burst_size window (t ∷ ts)
burst_size_pos window t [] = omega arith
burst_size_pos window t (u ∷ ts) = ground (arith, burst_size_pos window u ts)

-- What one Record of an event leaves in the map and answers, if the burst has then `size` events and
-- began at `start`.
abbrev pub Answers : Diagnostic → ℕ → ℕ → ℕ → Deduplicator × Diagnostic × Bool → Type 0
Answers diag t size start r =
    (lookup (deduplicator_key diag) r.0.entries
      ≡ some (record { first = start; last = t; count = size; last_diag = diag }))
    × (r.1 ≡ record diag { occur_count = size; first_seen_ts = unix_milli start })
    × (r.2 ≡ (size == 1))

record_first_lem :
    (t : ℕ) (diag : Diagnostic) (d : Deduplicator) → Answers diag t 1 t (record_first diag t d)
unfolding record_first lookup insert
record_first_lem t diag d = (rw (pair_eq_refl (deduplicator_key diag)) refl, refl, refl)

record_repeat_lem :
    (e : DeduplicatorEntry) (t : ℕ) (diag : Diagnostic) (d : Deduplicator)
    → 1 ≤ e.count
    → e.count + 1 < 2 ^ 64
    → Answers diag t (suc e.count) e.first (record_repeat e diag t d)
unfolding record_repeat lookup insert
record_repeat_lem e t diag d p b =
    let inc_lem : inc_int e.count ≡ suc e.count = omega arith in
    (rw (pair_eq_refl (deduplicator_key diag), inc_lem) refl, rw inc_lem refl, ground arith)

record_diag_lem :
    (window t : ℕ) (diag : Diagnostic) (ts : List ℕ) (d : Deduplicator)
    → d.window ≡ window
    → length ts + 1 < 2 ^ 64
    → Holds window ts (lookup (deduplicator_key diag) d.entries)
    → Answers diag t
        (burst_size window (t ∷ ts))
        (burst_start window (t ∷ ts))
        (record_diag diag t d)
unfolding record_diag
record_diag_lem window t diag [] d w b holds = rw (holds, record_diag) (record_first_lem t diag d)
record_diag_lem window t diag (u ∷ ts) d w b (e, at, last, count, first) =
    elim (Bool-cases (ltb window (t - u))) [
      | inl late ↦
          let late' : ltb d.window (t - e.last) ≡ true = ground arith in
          rw (at, record_diag) (rw (late', late) (record_first_lem t diag d))
      | inr soon ↦
          let soon' : ltb d.window (t - e.last) ≡ false = ground arith in
          rw (at, record_diag)
            (rw (soon', soon, sym count, sym first)
              (record_repeat_lem e t diag d (omega (arith, count, burst_size_pos window u ts))
                (omega (arith, count, b, burst_size-le window (u ∷ ts)))))
    ]

-- Another key's event leaves an entry as it is.
record_diag_other :
    (k : Text × Text) (t : ℕ) (diag : Diagnostic) (d : Deduplicator)
    → pair_eq (deduplicator_key diag) k ≡ false
    → lookup k (record_diag diag t d).0.entries ≡ lookup k d.entries
unfolding record_diag record_first record_repeat
record_diag_other k t diag d other =
    let kept = λ (e : DeduplicatorEntry). lookup-insert (deduplicator_key diag) k e d.entries in
    elim (Option-cases (lookup (deduplicator_key diag) d.entries)) [
      | inl absent ↦ rw (absent, record_diag, record_first) (kept _ ∙ rw other refl)
      | inr (e, at) ↦ elim (Bool-cases (ltb d.window (t - e.last))) [
        | inl late ↦ rw (at, record_diag) (rw (late, record_first) (kept _ ∙ rw other refl))
        | inr soon ↦ rw (at, record_diag) (rw (soon, record_repeat) (kept _ ∙ rw other refl))
      ]
    ]

after-Holds :
    (window : ℕ) (h : List (ℕ × Diagnostic)) (k : Text × Text)
    → length h < 2 ^ 64
    → Holds window (times k h) (lookup k (after window h).entries)
unfolding after new_deduplicator lookup
after-Holds window [] k b = refl
after-Holds window ((t, diag) ∷ h) k b =
    let ih = after-Holds window h k (omega arith) in
    elim (Bool-cases (pair_eq (deduplicator_key diag) k)) [
      | inr other ↦ rw other (rw (record_diag_other k t diag (after window h) other) ih)
      | inl mine ↦
          let same : deduplicator_key diag ≡ k = (pair_eq_iff (deduplicator_key diag) k).0 mine in
          let holds =
            subst (λ j. Holds window (times j h) (lookup j (after window h).entries)) (sym same)
              ih in
          let (at, _, _) =
            record_diag_lem window t diag (times (deduplicator_key diag) h) (after window h)
              (after-window window h) (omega (arith, times-le (deduplicator_key diag) h)) holds in
          rw mine (
            subst
              (λ j.
                Holds window (t ∷ times j h)
                  (lookup j (record_diag diag t (after window h)).0.entries))
              same (_, at, refl, refl, refl))
    ]

-- Whatever was recorded before (fewer than 2^64 - 1 events, of any endpoints and codes), Record
-- answers by the earlier times of the same endpoint and code alone: OccurCount is the number of
-- events in the current burst, where a gap longer than the window begins a new one, FirstSeenTs is the
-- time at which the burst began, in milliseconds, the rest of the diagnostic is unchanged, and the
-- event is to be reported exactly if it is the first of its burst.
pub record_diag-after :
    (window t : ℕ) (diag : Diagnostic) (h : List (ℕ × Diagnostic))
    → length h + 1 < 2 ^ 64
    → let ts = t ∷ times (deduplicator_key diag) h in
      let (d, merged, should_report) = record_diag diag t (after window h) in
      (merged ≡ record diag {
        occur_count = burst_size window ts;
        first_seen_ts = unix_milli (burst_start window ts);
      })
      × (should_report ≡ (burst_size window ts == 1))
record_diag-after window t diag h b =
    let (_, merged, should_report) =
      record_diag_lem window t diag (times (deduplicator_key diag) h) (after window h)
        (after-window window h) (omega (arith, times-le (deduplicator_key diag) h))
        (after-Holds window h (deduplicator_key diag) (omega arith)) in
    (merged, should_report)
