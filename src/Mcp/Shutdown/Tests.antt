-- ===== src/Mcp/Shutdown/Tests.antt =====
-- A start of the machine after a crash.
use orbitproxy_go.Prelude.{◌+◌, ◌≡◌, true, ◌==◌, codes, [], ◌∷◌, some, length}
use orbitproxy_go.Mcp.Errors.{other}
use orbitproxy_go.Mcp.Shutdown.{PidRecord, records, Kernel, clean_orphans}
use orbitproxy_go.Mcp.Shutdown.Orphans.{running, clean_orphans-running}

-- PID 7 belongs to another process now; PID 9 is free.
abbrev kernel : Kernel
kernel = record {
  find = λ pid. pid == 7;
  stat = λ pid. some (codes "7 (sshd) S");
  kill = λ pid. some (other (codes "operation not permitted"));
}

abbrev seven : PidRecord
seven = record { pid = 7; started_at = 100 }

abbrev nine : PidRecord
nine = record { pid = 9; started_at = 200 }

clean_orphans-running_example :
    let (done, file) = clean_orphans kernel true (records (seven ∷ nine ∷ [])) in
    (done.tried ≡ running kernel (seven ∷ nine ∷ []))
    × (done.cleaned + length done.errs ≡ length (running kernel (seven ∷ nine ∷ [])))
    × (file ≡ records [])
clean_orphans-running_example = clean_orphans-running kernel seven (nine ∷ [])
