-- ===== src/Mcp/Diagnostic.antt =====
-- internal/mcp/mcpstdio/diagnostic.go: Diagnostic, ClassifyExit, Sanitize and the Deduplicator. Times
-- and durations are nanoseconds. The regular expressions of Sanitize run in package regexp, which is
-- the parameter `replace_all`.
pub mod Burst
mod Tests
use orbitproxy_go.Prelude.{
  ℕ, ◌+◌, ◌-◌, ◌*◌, ◌/◌, ◌^◌, Bool, true, false, Text, codes, pair_Eq, List, [], ◌∷◌, Option, none,
  some, Map, lookup, insert, length, ltb, ◌==◌, if◌then◌else◌, ℤ, inc_int,
}
use orbitproxy_go.Mcp.Tail.{StderrBuffer, tail}

-- The codes that ClassifyExit gives.
abbrev pub code_exited_on_start : Text
code_exited_on_start = codes "exited_on_start"

abbrev pub code_handshake_rejected : Text
code_handshake_rejected = codes "handshake_rejected"

abbrev pub code_exited_at_runtime : Text
code_exited_at_runtime = codes "exited_at_runtime"

-- startupSurvivalThreshold
abbrev pub startup_survival_threshold : ℕ
startup_survival_threshold = 2 * 10 ^ 9

pub record Diagnostic : Type 0 where
  pub endpoint_id : Text
  pub code : Text
  pub message : Text
  pub exit_code : Option ℤ
  pub duration_ms : ℕ
  pub stderr_tail : List ℕ
  pub fields : List (Text × Text)
  pub occur_count : ℕ
  pub first_seen_ts : ℕ
  pub occurred_at : ℕ

-- What ClassifyExit reads of a Process: the exit code, if ProcessState is there, and StartedAt.
pub record Process : Type 0 where
  pub process_state : Option ℤ
  pub started_at : ℕ

module _ (replace_all : ℕ → List ℕ → List ℕ → List ℕ) where
  -- The patterns by their index, each with its replacement.
  abbrev sanitize_replacements : List (List ℕ)
  sanitize_replacements =
      codes "://***:***@"
      ∷ codes "Bearer [REDACTED]"
      ∷ codes "${1}[REDACTED]"
      ∷ codes "[REDACTED]"
      ∷ []

  abbrev replace_each : ℕ → List (List ℕ) → List ℕ → List ℕ
  replace_each i [] result = result
  replace_each i (by ∷ rest) result = replace_each (i + 1) rest (replace_all i result by)

  unfoldable pub sanitize : List ℕ → List ℕ
  sanitize raw = if length raw == 0 then raw else replace_each 0 sanitize_replacements raw

  abbrev stderr_of : Option StderrBuffer → List ℕ
  stderr_of none = []
  stderr_of (some sb) = sanitize (tail sb)

  unfoldable pub classify_exit : Text → Process → Option Text → Option StderrBuffer → ℕ → Diagnostic
  classify_exit endpoint_id proc handshake_err stderr_buf now =
      let duration = now - proc.started_at in
      let diag : Diagnostic = record {
        endpoint_id = endpoint_id;
        code = [];
        message = [];
        exit_code = proc.process_state;
        duration_ms = duration / 10 ^ 6;
        stderr_tail = stderr_of stderr_buf;
        fields = [];
        occur_count = 1;
        first_seen_ts = 0;
        occurred_at = now;
      } in
      if ltb duration startup_survival_threshold
      then record diag {
        code = code_exited_on_start;
        message = codes "process exited within 2s of start";
      }
      else elim handshake_err [
        | some e ↦ record diag { code = code_handshake_rejected; message = e }
        | none ↦ record diag {
          code = code_exited_at_runtime;
          message = codes "process exited during operation";
        }
      ]

pub record DeduplicatorEntry : Type 0 where
  pub first : ℕ
  pub last : ℕ
  pub count : ℕ
  pub last_diag : Diagnostic

-- The key is the pair of the endpoint and the code.
pub record Deduplicator : Type 0 where
  pub window : ℕ
  pub entries : Map (Text × Text) DeduplicatorEntry

unfoldable pub new_deduplicator : ℕ → Deduplicator
new_deduplicator window = record { window = window; entries = [] }

abbrev pub deduplicator_key : Diagnostic → Text × Text
deduplicator_key diag = (diag.endpoint_id, diag.code)

-- UnixMilli
abbrev pub unix_milli : ℕ → ℕ
unix_milli t = t / 10 ^ 6

-- A first event, or one after the window.
unfoldable pub record_first : Diagnostic → ℕ → Deduplicator → Deduplicator × Diagnostic × Bool
record_first diag now d = (
  record d {
    entries =
        insert (deduplicator_key diag)
          (record { first = now; last = now; count = 1; last_diag = diag }) d.entries;
  },
  record diag { occur_count = 1; first_seen_ts = unix_milli now },
  true,
)

-- A repetition within the window.
unfoldable pub record_repeat :
    DeduplicatorEntry → Diagnostic → ℕ → Deduplicator → Deduplicator × Diagnostic × Bool
record_repeat entry diag now d = (
  record d {
    entries =
        insert (deduplicator_key diag)
          (record {
            first = entry.first;
            last = now;
            count = inc_int entry.count;
            last_diag = diag;
          })
          d.entries;
  },
  record diag { occur_count = inc_int entry.count; first_seen_ts = unix_milli entry.first },
  false,
)

-- Record, at the time `now`.
unfoldable pub record_diag : Diagnostic → ℕ → Deduplicator → Deduplicator × Diagnostic × Bool
record_diag diag now d = elim (lookup (deduplicator_key diag) d.entries) [
  | none ↦ record_first diag now d
  | some entry ↦
      if ltb d.window (now - entry.last)
      then record_first diag now d
      else record_repeat entry diag now d
]
