-- ===== src/Mcp/Shutdown.antt =====
-- internal/mcp/mcpstdio/shutdown.go: how a child is ended, and the file with the PIDs of the children,
-- from which a later start of the machine ends those that were left. PIDs are natural numbers; what the
-- file system, the kernel and json.Unmarshal give are parameters.
pub mod Orphans
mod Tests
use orbitproxy_go.Prelude.{
  ℕ, suc, ◌==◌, not, ltb, Bool, true, false, Text, text_eq, is_space, codes, List, [], ◌∷◌, ◌++◌,
  Option, none, some, length, if◌then◌else◌,
}
use orbitproxy_go.Prelude.Decimal.{decimal}
use orbitproxy_go.Mcp.Errors.{Err, wrapped}

-- What Shutdown does to the process.
pub data Act : Type 0 where
  closes_stdin terminates kills : Act

-- What Wait has given when Shutdown looks: an error or nil, where it has returned. `signal_fails` is
-- whether the first signal gives an error.
pub record Waits : Type 0 where
  pub within_close : Option (Option Err)
  pub signal_fails : Bool
  pub at_signal : Option (Option Err)
  pub within_term : Option (Option Err)
  pub at_end : Option Err

-- Shutdown after the first signal.
unfoldable pub after_signal : Waits → List Act × Option Err
after_signal w = elim w.within_term [
  | some r ↦ (closes_stdin ∷ terminates ∷ [], r)
  | none ↦ (closes_stdin ∷ terminates ∷ kills ∷ [], w.at_end)
]

-- Shutdown of a process, with its acts in their order.
unfoldable pub shutdown : Bool → Waits → List Act × Option Err
shutdown is_started w =
    let signalled : List Act × Option Err = elim w.at_signal [
      | some r ↦ if w.signal_fails then (closes_stdin ∷ terminates ∷ [], r) else after_signal w
      | none ↦ after_signal w
    ] in
    if not is_started
    then ([], none)
    else elim w.within_close [ some r ↦ (closes_stdin ∷ [], r) | none ↦ signalled ]

-- pidRecord
pub record PidRecord : Type 0 where
  pub pid : ℕ
  pub started_at : ℕ

-- The file: it cannot be read, is empty, is no list of records, or has records.
pub data PidFile : Type 0 where
  unreadable empty malformed : PidFile
  records : List PidRecord → PidFile

-- readPIDRecords; `none` is an error.
unfoldable pub read_pid_records : PidFile → Option (List PidRecord)
read_pid_records unreadable = none
read_pid_records empty = some []
read_pid_records malformed = none
read_pid_records (records rs) = some rs

-- writePIDRecords; a write that fails leaves the file as it is.
unfoldable pub write_pid_records : Bool → List PidRecord → PidFile → PidFile
write_pid_records succeeds rs file = if succeeds then records rs else file

-- RecordPID: without records that can be read, only the new one is written.
unfoldable pub record_pid : Bool → PidRecord → PidFile → PidFile
record_pid succeeds r file =
    let rs : List PidRecord = elim (read_pid_records file) [ none ↦ [] | some rs ↦ rs ] in
    write_pid_records succeeds (rs ++ r ∷ []) file

-- The loop of RemovePID.
unfoldable pub without_pid : ℕ → List PidRecord → List PidRecord
without_pid pid [] = []
without_pid pid (r ∷ rs) =
    let rest = without_pid pid rs in if not (r.pid == pid) then r ∷ rest else rest

unfoldable pub remove_pid : Bool → ℕ → PidFile → PidFile
remove_pid succeeds pid file = elim (read_pid_records file) [
  | none ↦ file
  | some rs ↦ write_pid_records succeeds (without_pid pid rs) file
]

abbrev put_field : Text → List Text → List Text
put_field [] out = out
put_field (c ∷ s) out = (c ∷ s) ∷ out

-- strings.Fields; `word` is the word so far.
unfoldable pub fields : Text → Text → List Text
fields word [] = put_field word []
fields word (c ∷ s) =
    let ends = put_field word (fields [] s) in
    let goes_on = fields (word ++ c ∷ []) s in if is_space c then ends else goes_on

-- isProcessOurs, by /proc/<pid>/stat if it can be read.
unfoldable pub is_process_ours : Option Text → ℕ → Bool
is_process_ours stat started_at = elim stat [
  | none ↦ true
  | some text ↦ if ltb (length (fields [] text)) 22 then true else true
]

-- os.FindProcess, /proc/<pid>/stat, and Kill with its error.
pub record Kernel : Type 0 where
  pub find : ℕ → Bool
  pub stat : ℕ → Option Text
  pub kill : ℕ → Option Err

-- What CleanOrphans has done: the PIDs that it has tried to kill, how many it has, and the errors.
pub record Cleaned : Type 0 where
  pub tried : List ℕ
  pub cleaned : ℕ
  pub errs : List Err

abbrev kill_error : ℕ → Err → Err
kill_error pid err = wrapped (codes "kill orphan pid " ++ decimal pid ++ codes ": ") err

-- A record in the loop, before what the rest of the loop does.
unfoldable pub clean_one : Kernel → PidRecord → Cleaned → Cleaned
clean_one k r rest =
    let killed : Cleaned = elim (k.kill r.pid) [
      | some err ↦ record {
        tried = r.pid ∷ rest.tried;
        cleaned = rest.cleaned;
        errs = kill_error r.pid err ∷ rest.errs;
      }
      | none ↦ record { tried = r.pid ∷ rest.tried; cleaned = suc rest.cleaned; errs = rest.errs }
    ] in
    if not (k.find r.pid)
    then rest
    else if not (is_process_ours (k.stat r.pid) r.started_at)
    then rest
    else killed

unfoldable pub clean_each : Kernel → List PidRecord → Cleaned
clean_each k [] = record { tried = []; cleaned = 0; errs = [] }
clean_each k (r ∷ rs) = clean_one k r (clean_each k rs)

-- CleanOrphans, and the file after it.
unfoldable pub clean_orphans : Kernel → Bool → PidFile → Cleaned × PidFile
clean_orphans k succeeds file =
    let nothing : Cleaned = record { tried = []; cleaned = 0; errs = [] } in
    elim (read_pid_records file) [
      | none ↦ (nothing, file)
      | some [] ↦ (nothing, file)
      | some (r ∷ rs) ↦ (clean_each k (r ∷ rs), write_pid_records succeeds [] file)
    ]
