-- ===== src/Mcp/Errors/Tests.antt =====
-- Errors of a process that has ended.
use orbitproxy_go.Prelude.{◌+◌, ◌≤◌, ◌≡◌, codes, [], ◌∷◌, some, pos, length}
use orbitproxy_go.Mcp.Errors.{
  Report, typed, handshake, protocol, error_text, code_of, is_process_exit, wrap,
}
use orbitproxy_go.Mcp.Errors.Evidence.{exit_length, length-error_text}
use orbitproxy_go.Mcp.Errors.Kept.{wrapped_in, classify-wrapped_in}
use orbitproxy_go.Mcp.Errors.Code

abbrev ended : Report
ended = record {
  stage = handshake;
  code = Code.exited_on_start;
  message = codes "initialize: gone";
  exit_code = some (pos 1);
  stderr_tail = [];
  stdout_tail = codes "hello";
}

length-error_text_example :
    length (error_text ended) ≤ length ended.message + exit_length ended + 1054
length-error_text_example = length-error_text ended

classify-wrapped_in_test :
    (code_of (wrapped_in (codes "a" ∷ codes "b" ∷ []) (typed ended)) ≡ code_of (typed ended))
    × (is_process_exit (wrapped_in (codes "a" ∷ codes "b" ∷ []) (typed ended))
        ≡ is_process_exit (typed ended))
    × (code_of (
          wrapped_in
            (codes "a" ∷ codes "b" ∷ [])
            (wrap protocol Code.timeout [] (wrapped_in (codes "c" ∷ []) (typed ended))))
        ≡ Code.timeout)
classify-wrapped_in_test =
    classify-wrapped_in (codes "a" ∷ codes "b" ∷ []) (codes "c" ∷ []) protocol Code.timeout []
      (typed ended)
