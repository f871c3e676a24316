-- ===== src/Mcp/Tail/Tests.antt =====
-- Runs of StderrBuffer.
use orbitproxy_go.Prelude.{◌≡◌, [], ◌∷◌, ◌++◌, some, last_n}
use orbitproxy_go.Mcp.Tail.{StderrBuffer, stderr_buf_size, new_stderr_buffer, write, tail}
use orbitproxy_go.Mcp.Tail.Ring.{IsRing}
use orbitproxy_go.Mcp.Tail.Refinement.{tail-write, tail-write_each, write_each, new-IsRing}

tail-write_test :
    (sb : StderrBuffer) × (write (1 ∷ 2 ∷ []) new_stderr_buffer ≡ some (sb, 2))
    × IsRing sb
    × (tail sb ≡ last_n stderr_buf_size (tail new_stderr_buffer ++ 1 ∷ 2 ∷ []))
tail-write_test = tail-write (1 ∷ 2 ∷ []) new_stderr_buffer new-IsRing

tail-write_each_example :
    (sb : StderrBuffer) × (write_each ((1 ∷ 2 ∷ []) ∷ (3 ∷ []) ∷ []) new_stderr_buffer ≡ some sb)
    × (tail sb ≡ last_n stderr_buf_size (1 ∷ 2 ∷ 3 ∷ []))
tail-write_each_example = tail-write_each ((1 ∷ 2 ∷ []) ∷ (3 ∷ []) ∷ [])
