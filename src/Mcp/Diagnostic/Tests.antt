-- ===== src/Mcp/Diagnostic/Tests.antt =====
-- Runs of the Deduplicator.
use orbitproxy_go.Prelude.{ℕ, ◌≡◌, codes, List, [], ◌∷◌, none, arith, ◌==◌}
use orbitproxy_go.Mcp.Diagnostic.{Diagnostic, record_diag, deduplicator_key, unix_milli}
use orbitproxy_go.Mcp.Diagnostic.Burst.{after, times, burst_size, burst_start, record_diag-after}

abbrev event : Diagnostic
event = record {
  endpoint_id = codes "ep";
  code = codes "spawn_failed";
  message = [];
  exit_code = none;
  duration_ms = 0;
  stderr_tail = [];
  fields = [];
  occur_count = 0;
  first_seen_ts = 0;
  occurred_at = 0;
}

abbrev earlier : List (ℕ × Diagnostic)
earlier =
    (70000000, event)
    ∷ (65000000, record event { code = codes "internal" })
    ∷ (60000000, event)
    ∷ (3000000, event)
    ∷ []

record_diag-after_example :
    let ts = 75000000 ∷ times (deduplicator_key event) earlier in
    let (d, merged, should_report) = record_diag event 75000000 (after 20000000 earlier) in
    (merged ≡ record event {
      occur_count = burst_size 20000000 ts;
      first_seen_ts = unix_milli (burst_start 20000000 ts);
    })
    × (should_report ≡ (burst_size 20000000 ts == 1))
record_diag-after_example = record_diag-after 20000000 75000000 event earlier (omega arith)
