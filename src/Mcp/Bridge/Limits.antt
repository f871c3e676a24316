-- ===== src/Mcp/Bridge/Limits.antt =====
-- internal/mcp/mcpstdio/bridge.go: isLimitError reads the text of an error, which has the output of the
-- child in it.
use orbitproxy_go.Prelude.{
  ℕ, ℤ, ◌≡◌, refl, true, Text, text_eq, codes, has_prefix, contains, List, [], ◌∷◌, ◌++◌, some,
  arith, Bool-cases, inl, inr,
}
use orbitproxy_go.Mcp.Errors.Code
use orbitproxy_go.Prelude.Paths.{join}
use orbitproxy_go.Mcp.Errors.{
  Report, typed, tail, text_of, error_text, error_parts, format_number, segment, evidence_sep,
  or_empty,
}
use orbitproxy_go.Mcp.Bridge.{error_body, answers, is_limit_error, pool_failed}

has_prefix-append : (s t p : Text) → has_prefix s p ≡ true → has_prefix (s ++ t) p ≡ true
unfolding has_prefix
has_prefix-append s t [] h = ground arith
has_prefix-append [] t (d ∷ p) h = absurd (cc h)
has_prefix-append (c ∷ s) t (d ∷ p) h = elim (Bool-cases (has_prefix s p)) [
  | inl more ↦ ground (arith, h, has_prefix-append s t p more)
  | inr over ↦ absurd (ground (arith, h, over))
]

contains_empty : (t : Text) → contains t [] ≡ true
unfolding contains has_prefix
contains_empty [] = refl
contains_empty (c ∷ t) = refl

contains_before : (s t p : Text) → contains s p ≡ true → contains (s ++ t) p ≡ true
unfolding contains has_prefix
contains_before [] t [] h = contains_empty t
contains_before [] t (d ∷ p) h = absurd (cc h)
contains_before (c ∷ s) t p h = elim (Bool-cases (contains s p)) [
  | inl later ↦ ground (arith, contains_before s t p later)
  | inr over ↦
      let here : has_prefix (c ∷ s) p ≡ true = ground (arith, h, over) in
      ground (arith, has_prefix-append (c ∷ s) t p here)
]

contains_after : (s t p : Text) → contains t p ≡ true → contains (s ++ t) p ≡ true
unfolding contains
contains_after [] t p h = h
contains_after (c ∷ s) t p h = ground (arith, contains_after s t p h)

contains-join_head :
    (sep s : Text) (ts : List Text) (p : Text)
    → contains s p ≡ true
    → contains (join sep (s ∷ ts)) p ≡ true
unfolding join
contains-join_head sep s [] p h = h
contains-join_head sep s (t ∷ ts) p h = contains_before (s ++ sep) _ p (contains_before s sep p h)

contains-join_tail :
    (sep s t : Text) (ts : List Text) (p : Text)
    → contains (join sep (t ∷ ts)) p ≡ true
    → contains (join sep (s ∷ t ∷ ts)) p ≡ true
unfolding join
contains-join_tail sep s t ts p h = contains_after (s ++ sep) _ p h

or_empty_lem :
    (s : Text) (c : ℕ) (p : Text) → contains s (c ∷ p) ≡ true → contains (or_empty s) (c ∷ p) ≡ true
unfolding contains has_prefix text_eq
or_empty_lem [] c p h = absurd (cc h)
or_empty_lem (d ∷ s) c p h = h

error_text-stderr :
    (e : Report) (n : ℤ) (c : ℕ) (p : Text)
    → e.exit_code ≡ some n
    → contains (tail e.stderr_tail) (c ∷ p) ≡ true
    → contains (error_text e) (c ∷ p) ≡ true
unfolding error_text error_parts
error_text-stderr e n c p gone h = rw gone (
    contains-join_tail evidence_sep e.message _ _ (c ∷ p) (
      contains-join_tail evidence_sep (codes "exit_code=" ++ format_number n) _ _ (c ∷ p) (
        contains-join_head evidence_sep _ (segment "stdout=" (tail e.stdout_tail)) (c ∷ p)
          (contains_after (codes "stderr=") _ (c ∷ p) (or_empty_lem _ c p h)))))

-- Whatever the code of an error is, when it stands for a child that has exited and the end of the
-- child's stderr has "limit reached" in it, the client is told 503 and concurrency_limit.
pub pool_failed-by_stderr :
    (e : Report) (n : ℤ)
    → e.exit_code ≡ some n
    → contains (tail e.stderr_tail) (codes "limit reached") ≡ true
    → pool_failed (typed e) ≡ answers 503 (error_body Code.concurrency_limit (error_text e))
unfolding pool_failed is_limit_error text_of
pool_failed-by_stderr e n gone found = rw (error_text-stderr e n _ _ gone found) refl
