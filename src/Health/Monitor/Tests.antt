-- ===== src/Health/Monitor/Tests.antt =====
-- Runs of the monitor.
use orbitproxy_go.Prelude.{
  ℕ, suc, ◌+◌, ◌≡◌, refl, Text, codes, List, [], ◌∷◌, ◌++◌, Option, none, some, pos, arith, ◌==◌,
  if◌then◌else◌,
}
use orbitproxy_go.Health.Monitor.{
  Monitor, on_unhealthy, new_monitor, check_worker, check_round, check_passed,
}
use orbitproxy_go.Health.Monitor.Reports.{
  Alternate, failures, probe_failed, check_worker-Alternate, check_worker-threshold,
}

abbrev mixed : List (Option Text × ℕ)
mixed = (some (codes "refused"), 20) ∷ (none, 30) ∷ (none, 40) ∷ []

check_worker-Alternate_test :
    Alternate
      (new_monitor (pos 10) (pos 3) (pos 1) (codes "tcp")).status_ok
      (check_worker mixed (new_monitor (pos 10) (pos 3) (pos 1) (codes "tcp"))).1
check_worker-Alternate_test =
    check_worker-Alternate mixed (new_monitor (pos 10) (pos 3) (pos 1) (codes "tcp"))

-- A monitor that has just recovered, and wants two failures.
abbrev recovered : Monitor
recovered = (check_round none 10 (new_monitor (pos 10) (pos 3) (pos 2) (codes "tcp"))).0

check_worker-threshold_test :
    (check_worker (mixed ++ (some (codes "timeout"), 50) ∷ []) recovered).1 ≡ (
      if suc (recovered.failed_times + failures mixed) == recovered.max_failed_times
      then on_unhealthy (probe_failed (codes "timeout") 50 recovered) ∷ []
      else [])
unfolding check_round check_passed new_monitor
check_worker-threshold_test =
    check_worker-threshold mixed (codes "timeout") 50 recovered refl (omega arith) (omega arith)
