-- ===== src/Mcp/Errors.antt =====
-- internal/mcp/mcperr/mcperr.go: errors with a stage, a code and the evidence of a process. Texts are
-- lists of bytes, and white space is what strings.TrimSpace takes off an ASCII text.
pub mod Code
pub mod Evidence
pub mod Kept
mod Tests
use Prim.Native.String.{String}
use orbitproxy_go.Prelude.{
  ℕ, Bool, true, false, ◌||◌, Text, text_eq, codes, List, [], ◌∷◌, ◌++◌, Option, none, some, ℤ, pos,
  negsuc, suc, length, ltb, last_n, trim_space, if◌then◌else◌,
}
use orbitproxy_go.Prelude.Decimal.{decimal}
use orbitproxy_go.Prelude.Paths.{join}
use orbitproxy_go.Mcp.Errors.Code

pub data Stage : Type 0 where
  command packages prerequisite spawn handshake settle protocol dial : Stage

-- Error, less its Cause. The stages are named by what they are about; `packages` is StagePackage.
pub record Report : Type 0 where
  pub stage : Stage
  pub code : Text
  pub message : Text
  pub exit_code : Option ℤ
  pub stderr_tail : Text
  pub stdout_tail : Text

-- The errors that the source tells apart: the sentinels of context, syscall and io, a network error
-- that has timed out, a text of its own, an Error without and with a Cause, and fmt.Errorf with %w,
-- whose text stands before that of the error in it.
pub data Err : Type 0 where
  deadline_exceeded canceled broken_pipe closed_pipe : Err
  timed_out other : Text → Err
  typed : Report → Err
  caused : Report → Err → Err
  wrapped : Text → Err → Err

-- New
unfoldable pub new_report : Stage → Text → Text → Report
new_report stage code message = record {
  stage = stage;
  code = code;
  message = message;
  exit_code = none;
  stderr_tail = [];
  stdout_tail = [];
}

-- WithProcess
unfoldable pub with_process : Option ℤ → Text → Text → Report → Report
with_process exit_code stderr_tail stdout_tail e = record e {
  exit_code = exit_code;
  stderr_tail = stderr_tail;
  stdout_tail = stdout_tail;
}

abbrev pub max_evidence_len : ℕ
max_evidence_len = 512

unfoldable pub tail : Text → Text
tail s =
    let s' = trim_space s in
    if ltb max_evidence_len (length s') then last_n max_evidence_len s' else s'

-- fmt's %d.
unfoldable pub format_number : ℤ → Text
format_number (pos n) = decimal n
format_number (negsuc n) = b'-' ∷ decimal (suc n)

abbrev pub evidence_sep : Text
evidence_sep = codes "; "

abbrev pub or_empty : Text → Text
or_empty s = if text_eq s [] then codes "(empty)" else s

-- A segment that stands only where there is evidence.
abbrev pub segment : String → Text → List Text
segment key s = if text_eq s [] then [] else (codes key ++ s) ∷ []

unfoldable pub error_parts : Report → List Text
error_parts e =
    e.message
    ∷ (elim e.exit_code [
      | some n ↦
          (codes "exit_code=" ++ format_number n)
          ∷ (codes "stderr=" ++ or_empty (tail e.stderr_tail))
          ∷ []
      | none ↦ segment "stderr=" (tail e.stderr_tail)
    ]
        ++ segment "stdout=" (tail e.stdout_tail))

-- Error()
unfoldable pub error_text : Report → Text
error_text e = join evidence_sep (error_parts e)

unfoldable pub text_of : Err → Text
text_of deadline_exceeded = codes "context deadline exceeded"
text_of canceled = codes "context canceled"
text_of broken_pipe = codes "broken pipe"
text_of closed_pipe = codes "io: read/write on closed pipe"
text_of (timed_out s) = s
text_of (other s) = s
text_of (typed e) = error_text e
text_of (caused e c) = error_text e
text_of (wrapped s e) = s ++ text_of e

-- Wrap, with a cause.
unfoldable pub wrap : Stage → Text → Text → Err → Err
unfolding new_report
wrap stage code message cause =
    caused (new_report stage code (if text_eq message [] then text_of cause else message)) cause

-- As: the first Error of the chain.
unfoldable pub as_typed : Err → Option Report
as_typed (typed e) = some e
as_typed (caused e c) = some e
as_typed (wrapped s e) = as_typed e
as_typed _ = none

-- errors.Is(err, context.DeadlineExceeded)
unfoldable pub is_deadline_exceeded : Err → Bool
is_deadline_exceeded deadline_exceeded = true
is_deadline_exceeded (caused e c) = is_deadline_exceeded c
is_deadline_exceeded (wrapped s e) = is_deadline_exceeded e
is_deadline_exceeded _ = false

unfoldable pub process_exited : Report → Bool
process_exited e = elim e.exit_code [ some n ↦ true | none ↦ false ]

-- Classify; `none` is a nil error.
unfoldable pub classify : Option Err → Text × Text
classify none = (Code.internal, codes "unknown error")
classify (some err) = elim (as_typed err) [
  | some e ↦ (e.code, text_of err)
  | none ↦
      if is_deadline_exceeded err then (Code.timeout, text_of err) else (Code.internal, text_of err)
]

unfoldable pub code_of : Err → Text
unfolding classify
code_of err = (classify (some err)).0

unfoldable pub is_process_exit : Err → Bool
is_process_exit err = elim (as_typed err) [
  | none ↦ false
  | some e ↦
      if text_eq e.code Code.exited_on_start
        || text_eq e.code Code.exited_after_handshake
        || text_eq e.code Code.exited_at_runtime
      then true
      else process_exited e
]

-- A result or an error.
pub data Outcome {ℓ} (R : Type ℓ) : Type ℓ where
  done : R → Outcome R
  failed : Err → Outcome R
