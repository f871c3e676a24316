-- ===== src/Mcp/Errors/Kept.antt =====
-- internal/mcp/mcperr/mcperr.go: what wrapping an error does to its classification.
use orbitproxy_go.Prelude.{◌≡◌, refl, Text, List, [], ◌∷◌, ◌++◌, arith}
use orbitproxy_go.Mcp.Errors.{
  Err, wrapped, as_typed, is_deadline_exceeded, classify, code_of, is_process_exit, wrap,
  new_report, Stage,
}

-- fmt.Errorf with %w, again and again.
abbrev pub wrapped_in : List Text → Err → Err
wrapped_in [] e = e
wrapped_in (s ∷ ss) e = wrapped s (wrapped_in ss e)

abbrev pub prefixes : List Text → Text
prefixes [] = []
prefixes (s ∷ ss) = s ++ prefixes ss

as_typed-wrapped_in : (ss : List Text) (e : Err) → as_typed (wrapped_in ss e) ≡ as_typed e
unfolding as_typed
as_typed-wrapped_in [] e = refl
as_typed-wrapped_in (s ∷ ss) e = as_typed-wrapped_in ss e

is_deadline_exceeded-wrapped_in :
    (ss : List Text) (e : Err) → is_deadline_exceeded (wrapped_in ss e) ≡ is_deadline_exceeded e
unfolding is_deadline_exceeded
is_deadline_exceeded-wrapped_in [] e = refl
is_deadline_exceeded-wrapped_in (s ∷ ss) e = is_deadline_exceeded-wrapped_in ss e

-- However often an error is wrapped, its code stays and so does whether it means the exit of a process:
-- only Wrap, which makes an Error of its own, gives it another code, and that code is the one seen
-- from then on.
pub classify-wrapped_in :
    (ss ts : List Text) (stage : Stage) (code message : Text) (e : Err)
    → (code_of (wrapped_in ss e) ≡ code_of e)
      × (is_process_exit (wrapped_in ss e) ≡ is_process_exit e)
      × (code_of (wrapped_in ss (wrap stage code message (wrapped_in ts e))) ≡ code)
unfolding code_of classify is_process_exit wrap as_typed new_report
classify-wrapped_in ss ts stage code message e =
    let kept = as_typed-wrapped_in ss e in
    let late = is_deadline_exceeded-wrapped_in ss e in
    (
      ground (arith, kept, late),
      ground (arith, kept),
      ground (arith, as_typed-wrapped_in ss (wrap stage code message (wrapped_in ts e))),
    )
