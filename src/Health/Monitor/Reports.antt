-- ===== src/Health/Monitor/Reports.antt =====
-- internal/health/monitor.go: which reports a monitor makes, and when.
use orbitproxy_go.Prelude.{
  ℕ, suc, ◌+◌, ◌^◌, ◌<◌, ◌≡◌, refl, inl, inr, Bool, true, false, ◌&&◌, Text, codes, List, [], ◌∷◌,
  ◌++◌, Option, none, some, if◌then◌else◌, inc_int, int_at_least, arith, ◌==◌, ◌∙◌, Bool-cases,
}
use orbitproxy_go.Health.Observation.{Observation}
use orbitproxy_go.Health.Monitor.{
  Monitor, Report, on_healthy, on_unhealthy, check_passed, check_failed, check_round, check_worker,
}

-- Recovery and failure take turns; the flag tells which is the state before.
abbrev pub Alternate : Bool → List Report → Type 0
Alternate ok [] = Unit
Alternate ok (on_healthy ∷ rs) = (ok ≡ false) × Alternate true rs
Alternate ok (on_unhealthy o ∷ rs) = (ok ≡ true) × (o.healthy ≡ false) × Alternate false rs

-- The reports of any sequence of checks take turns, and begin with a recovery if the monitor was not
-- healthy and with a failure if it was.
pub check_worker-Alternate :
    (results : List (Option Text × ℕ)) (m : Monitor)
    → Alternate m.status_ok (check_worker results m).1
unfolding check_worker check_round check_passed check_failed
check_worker-Alternate [] m = tt
check_worker-Alternate ((none, now) ∷ rest) m =
    ground (arith, check_worker-Alternate rest (check_passed m).0)
check_worker-Alternate ((some err, now) ∷ rest) m =
    ground (arith, check_worker-Alternate rest (check_failed err now m).0)

-- The failed checks.
abbrev pub failures : List (Option Text × ℕ) → ℕ
failures [] = 0
failures ((none, now) ∷ rest) = failures rest
failures ((some err, now) ∷ rest) = suc (failures rest)

-- What a failed check reports.
unfoldable pub probe_failed : Text → ℕ → Monitor → Observation
probe_failed err now m = record {
  healthy = false;
  code = codes "probe_failed";
  message = err;
  exit_code = none;
  stderr_tail = [];
  source = m.probe_name;
  observed_at = now;
}

check_failed_below :
    (err : Text) (now : ℕ) (m : Monitor)
    → suc m.failed_times < m.max_failed_times
    → m.max_failed_times < 2 ^ 63
    → check_failed err now m ≡ (record m { failed_times = suc m.failed_times }, none)
unfolding check_failed
check_failed_below err now m few b =
    let inc_lem : inc_int m.failed_times ≡ suc m.failed_times = omega arith in
    let below : (m.status_ok && int_at_least (suc m.failed_times) m.max_failed_times) ≡ false =
      ground arith in
    rw (inc_lem, below) refl

check_failed_reached :
    (err : Text) (now : ℕ) (m : Monitor)
    → m.status_ok ≡ true
    → suc m.failed_times ≡ m.max_failed_times
    → m.max_failed_times < 2 ^ 63
    → check_failed err now m ≡ (
      record m { failed_times = suc m.failed_times; status_ok = false },
      some (on_unhealthy (probe_failed err now m)),
    )
unfolding check_failed probe_failed
check_failed_reached err now m ok reached b =
    let inc_lem : inc_int m.failed_times ≡ suc m.failed_times = omega arith in
    let above : (m.status_ok && int_at_least (suc m.failed_times) m.max_failed_times) ≡ true =
      ground arith in
    rw (inc_lem, above) refl

check_worker_silent :
    (result : Option Text) (now : ℕ) (rest : List (Option Text × ℕ)) (m m' : Monitor)
    → check_round result now m ≡ (m', none)
    → check_worker ((result, now) ∷ rest) m ≡ check_worker rest m'
unfolding check_worker
check_worker_silent result now rest m m' step = simp step

-- A healthy monitor with too few failures makes no report, whatever passes between them.
quiet :
    (results : List (Option Text × ℕ)) (m : Monitor)
    → m.status_ok ≡ true
    → m.failed_times + failures results < m.max_failed_times
    → m.max_failed_times < 2 ^ 63
    → check_worker results m ≡ (record m { failed_times = m.failed_times + failures results }, [])
unfolding check_worker check_round check_passed
quiet [] m ok few b = let same : m.failed_times + 0 ≡ m.failed_times = omega arith in rw same refl
quiet ((none, now) ∷ rest) m ok few b = let ih = quiet rest m ok few b in simp (ok, ih)
quiet ((some err, now) ∷ rest) m ok few b =
    let m' : Monitor = record m { failed_times = suc m.failed_times } in
    let ih = quiet rest m' ok (omega (arith, few)) b in
    let step = check_failed_below err now m (omega (arith, few)) b in
    let sum : suc m.failed_times + failures rest ≡ m.failed_times + suc (failures rest) =
      omega arith in
    check_worker_silent (some err) now rest m m' step ∙ rw ih (rw sum refl)

check_worker_append :
    (xs ys : List (Option Text × ℕ)) (m : Monitor)
    → (check_worker (xs ++ ys) m).1
      ≡ (check_worker xs m).1 ++ (check_worker ys (check_worker xs m).0).1
unfolding check_worker
check_worker_append [] ys m = refl
check_worker_append ((result, now) ∷ xs) ys m =
    ground (arith, check_worker_append xs ys (check_round result now m).0)

-- While a monitor is healthy its failed checks add up, and a check that passes does not set them back:
-- with fewer than max_failed_times failures so far, the next failed check is reported as unhealthy if it
-- is number max_failed_times, and otherwise nothing has been reported.
pub check_worker-threshold :
    (results : List (Option Text × ℕ)) (err : Text) (now : ℕ) (m : Monitor)
    → m.status_ok ≡ true
    → m.failed_times + failures results < m.max_failed_times
    → m.max_failed_times < 2 ^ 63
    → (check_worker (results ++ (some err, now) ∷ []) m).1 ≡ (
        if suc (m.failed_times + failures results) == m.max_failed_times
        then on_unhealthy (probe_failed err now m) ∷ []
        else [])
unfolding probe_failed check_worker check_round
check_worker-threshold results err now m ok few b =
    let m' : Monitor = record m { failed_times = m.failed_times + failures results } in
    let start = quiet results m ok few b in
    elim (Bool-cases (suc m'.failed_times == m'.max_failed_times)) [
      | inl last ↦
          let step = check_failed_reached err now m' ok (ground arith) b in
          check_worker_append results ((some err, now) ∷ []) m
          ∙ rw (start, last) (rw (step, check_worker, check_round) refl)
      | inr more ↦
          let step = check_failed_below err now m' (ground arith) b in
          check_worker_append results ((some err, now) ∷ []) m
          ∙ rw (start, more) (rw (step, check_worker, check_round) refl)
    ]
