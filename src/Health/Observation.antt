-- ===== src/Health/Observation.antt =====
-- internal/health/observation.go. Times are nanoseconds; 0 is the zero time.
use orbitproxy_go.Prelude.{
  ℕ, Bool, true, false, Text, text_eq, [], Option, none, ℤ, if◌then◌else◌, not,
}

pub record Observation : Type 0 where
  pub healthy : Bool
  pub code : Text
  pub message : Text
  pub exit_code : Option ℤ
  pub stderr_tail : Text
  pub source : Text
  pub observed_at : ℕ

unfoldable pub unhealthy : Text → Text → Text → ℕ → Observation
unhealthy code message source now = record {
  healthy = false;
  code = code;
  message = message;
  exit_code = none;
  stderr_tail = [];
  source = source;
  observed_at = now;
}

unfoldable pub healthy_obs : Text → ℕ → Observation
healthy_obs source now = record {
  healthy = true;
  code = [];
  message = [];
  exit_code = none;
  stderr_tail = [];
  source = source;
  observed_at = now;
}

unfoldable pub reason_text : Observation → Text
reason_text o = if not (text_eq o.message []) then o.message else o.code
