-- ===== src/Mcp/Errors/Evidence.antt =====
-- internal/mcp/mcperr/mcperr.go: the text of an Error is bounded by its message.
use orbitproxy_go.Prelude.{
  ℕ, ◌+◌, ◌-◌, ◌≤◌, ◌≡◌, refl, inl, inr, Text, codes, List, [], ◌∷◌, ◌++◌, none, some, length,
  length-append, length-drop, trim_space, arith, Option-cases,
}
use orbitproxy_go.Prelude.Paths.{join}
use orbitproxy_go.Mcp.Errors.{
  Report, tail, max_evidence_len, format_number, or_empty, segment, error_parts, evidence_sep,
  error_text,
}

length-tail : (s : Text) → length (tail s) ≤ max_evidence_len
unfolding tail
length-tail s =
    let s' = trim_space s in ground (arith, length-drop (length s' - max_evidence_len) s')

-- The digits of the exit code, if there is one.
abbrev pub exit_length : Report → ℕ
exit_length e = elim e.exit_code [ some n ↦ length (format_number n) | none ↦ 0 ]

-- The bytes of some segments, each with its separator.
total : List Text → ℕ
total [] = 0
total (s ∷ ss) = length s + 2 + total ss

total_lem : (s : Text) (ss : List Text) → total (s ∷ ss) ≡ length s + 2 + total ss
unfolding total
total_lem s ss = refl

length-join : (s : Text) (ss : List Text) → length (join evidence_sep (s ∷ ss)) + 2 ≡ total (s ∷ ss)
unfolding total join
length-join s [] = omega arith
length-join s (t ∷ ss) = omega (
  arith,
  length-append (s ++ evidence_sep) (join evidence_sep (t ∷ ss)),
  length-append s evidence_sep,
  length-join t ss,
)

total-append : (ss ts : List Text) → total (ss ++ ts) ≡ total ss + total ts
unfolding total
total-append [] ts = omega arith
total-append (s ∷ ss) ts = omega (arith, total-append ss ts)

total-segment : (s : Text) → length s ≤ 512 → total (segment "stdout=" s) ≤ 521
unfolding total
total-segment s h = ground (arith, length-append (codes "stdout=") s)

total-segment_stderr : (s : Text) → length s ≤ 512 → total (segment "stderr=" s) ≤ 521
unfolding total
total-segment_stderr s h = ground (arith, length-append (codes "stderr=") s)

length-or_empty : (s : Text) → length s ≤ 512 → length (or_empty s) ≤ 512
length-or_empty s h = ground arith

-- The process's part of the evidence.
abbrev process_parts : Report → List Text
process_parts e = elim e.exit_code [
  | some n ↦
      (codes "exit_code=" ++ format_number n)
      ∷ (codes "stderr=" ++ or_empty (tail e.stderr_tail))
      ∷ []
  | none ↦ segment "stderr=" (tail e.stderr_tail)
]

total-process_parts : (e : Report) → total (process_parts e) ≤ exit_length e + 533
unfolding total
total-process_parts e = elim (Option-cases e.exit_code) [
  | inl running ↦
      rw running
        (omega (arith, total-segment_stderr (tail e.stderr_tail) (length-tail e.stderr_tail)))
  | inr (n, exited) ↦ rw exited (
      omega (
        arith,
        length-append (codes "exit_code=") (format_number n),
        length-append (codes "stderr=") (or_empty (tail e.stderr_tail)),
        length-or_empty (tail e.stderr_tail) (length-tail e.stderr_tail),
      ))
]

-- Error() adds at most 1054 bytes and the digits of the exit code to the message, however long the
-- tails of the process's output are: the evidence stays bounded.
pub length-error_text :
    (e : Report) → length (error_text e) ≤ length e.message + exit_length e + 1054
unfolding error_text error_parts
length-error_text e = omega (
  arith,
  length-join e.message (process_parts e ++ segment "stdout=" (tail e.stdout_tail)),
  total-append (process_parts e) (segment "stdout=" (tail e.stdout_tail)),
  total-process_parts e,
  total-segment (tail e.stdout_tail) (length-tail e.stdout_tail),
  total_lem e.message (process_parts e ++ segment "stdout=" (tail e.stdout_tail)),
)
