-- ===== src/Mcp/Shutdown/Orphans.antt =====
-- internal/mcp/mcpstdio/shutdown.go: what CleanOrphans kills.
use orbitproxy_go.Prelude.{
  ℕ, ◌+◌, ◌≡◌, refl, inl, inr, true, Text, List, [], ◌∷◌, Option, length, arith, if◌then◌else◌,
  Bool-cases, Option-cases,
}
use orbitproxy_go.Mcp.Shutdown.{
  PidRecord, records, read_pid_records, write_pid_records, is_process_ours, Kernel, clean_one,
  clean_each, clean_orphans,
}

-- The PIDs of the records that a process has now.
abbrev pub running : Kernel → List PidRecord → List ℕ
running k [] = []
running k (r ∷ rs) = let rest = running k rs in if k.find r.pid then r.pid ∷ rest else rest

is_process_ours_always :
    (stat : Option Text) (started_at : ℕ) → is_process_ours stat started_at ≡ true
unfolding is_process_ours
is_process_ours_always stat started_at = ground arith

clean_each_lem :
    (k : Kernel) (rs : List PidRecord)
    → ((clean_each k rs).tried ≡ running k rs)
      × ((clean_each k rs).cleaned + length (clean_each k rs).errs ≡ length (running k rs))
unfolding clean_each clean_one
clean_each_lem k [] = (refl, refl)
clean_each_lem k (r ∷ rs) =
    let (tried, count) = clean_each_lem k rs in
    let ours = is_process_ours_always (k.stat r.pid) r.started_at in
    elim (Bool-cases (k.find r.pid)) [
      | inr gone ↦ (ground (arith, gone, tried), ground (arith, gone, count))
      | inl there ↦ elim (Option-cases (k.kill r.pid)) [
        | inl killed ↦
            (ground (arith, there, ours, killed, tried), ground (arith, there, ours, killed, count))
        | inr (e, bad) ↦
            (ground (arith, there, ours, bad, tried), ground (arith, there, ours, bad, count))
      ]
    ]

-- CleanOrphans tries to kill every process that has the PID of a record, whatever the record's start
-- time is and whatever the kernel says of the process: the start time is never compared. Each attempt
-- counts as cleaned or as an error, and the file is emptied even where an attempt has failed.
pub clean_orphans-running :
    (k : Kernel) (r : PidRecord) (rs : List PidRecord)
    → let (done, file) = clean_orphans k true (records (r ∷ rs)) in
      (done.tried ≡ running k (r ∷ rs))
      × (done.cleaned + length done.errs ≡ length (running k (r ∷ rs)))
      × (file ≡ records [])
unfolding clean_orphans read_pid_records write_pid_records
clean_orphans-running k r rs =
    let (tried, count) = clean_each_lem k (r ∷ rs) in (tried, count, refl)
