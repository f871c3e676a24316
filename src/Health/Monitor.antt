-- ===== src/Health/Monitor.antt =====
-- internal/health/monitor.go: the probe loop as a state machine. One step is one Check whose result
-- the worker looks at; a cancelled context ends the sequence of steps. Both callbacks are set, as by
-- the only caller (Runtime.restartMonitorLocked). A failed Check is its error text.
pub mod Reports
mod Tests
use orbitproxy_go.Prelude.{
  ℕ, ◌+◌, ◌%◌, ◌^◌, Bool, true, false, not, ◌&&◌, Text, codes, List, [], ◌∷◌, Option, none, some, ℤ,
  non_positive, pos_part, if◌then◌else◌, inc_int, int_at_least,
}
use orbitproxy_go.Health.Observation.{Observation}

pub record Monitor : Type 0 where
  pub interval : ℕ
  pub timeout : ℕ
  pub max_failed_times : ℕ
  pub probe_name : Text
  pub failed_times : ℕ
  pub status_ok : Bool

abbrev pub or_default : ℤ → ℕ → ℕ
or_default n d = if non_positive n then d else pos_part n

-- NewMonitor; the durations in seconds.
unfoldable pub new_monitor : ℤ → ℤ → ℤ → Text → Monitor
new_monitor interval_sec timeout_sec max_failed probe_name = record {
  interval = or_default interval_sec 10;
  timeout = or_default timeout_sec 3;
  max_failed_times = or_default max_failed 1;
  probe_name = probe_name;
  failed_times = 0;
  status_ok = false;
}

-- The calls of the callbacks.
pub data Report : Type 0 where
  on_healthy : Report
  on_unhealthy : Observation → Report

-- A Check without an error.
unfoldable pub check_passed : Monitor → Monitor × Option Report
check_passed m =
    if not m.status_ok
    then (record m { status_ok = true; failed_times = 0 }, some on_healthy)
    else (m, none)

-- A Check with an error.
unfoldable pub check_failed : Text → ℕ → Monitor → Monitor × Option Report
check_failed err now m =
    let failed = inc_int m.failed_times in
    if m.status_ok && int_at_least failed m.max_failed_times
    then (
      record m { failed_times = failed; status_ok = false },
      some (
          on_unhealthy (record {
            healthy = false;
            code = codes "probe_failed";
            message = err;
            exit_code = none;
            stderr_tail = [];
            source = m.probe_name;
            observed_at = now;
          })),
    )
    else (record m { failed_times = failed }, none)

-- One round of checkWorker, at the time `now`.
unfoldable pub check_round : Option Text → ℕ → Monitor → Monitor × Option Report
check_round none now m = check_passed m
check_round (some err) now m = check_failed err now m

-- The rounds of checkWorker, with what they report.
unfoldable pub check_worker : List (Option Text × ℕ) → Monitor → Monitor × List Report
check_worker [] m = (m, [])
check_worker ((result, now) ∷ rest) m =
    let (m₁, report) = check_round result now m in
    let (m₂, reports) = check_worker rest m₁ in
    (m₂, elim report [ none ↦ reports | some r ↦ r ∷ reports ])
