-- ===== src/Mcp/Tail.antt =====
-- internal/mcp/mcpstdio/diagnostic.go: StderrBuffer, the ring that keeps the tail of an output. The
-- mutex makes each method one step.
pub mod Ring
pub mod Refinement
mod Tests
use orbitproxy_go.Prelude.{
  ℕ, zero, suc, ◌+◌, ◌-◌, ◌*◌, Bool, true, false, List, [], ◌∷◌, ◌++◌, Option, none, some, leb, ltb,
  ◌==◌, if◌then◌else◌, length, take, drop, replicate,
}

-- const stderrBufSize
unfoldable pub stderr_buf_size : ℕ
stderr_buf_size = 4 * 1024

pub record StderrBuffer : Type 0 where
  pub buf : List ℕ
  pub pos : ℕ
  pub is_full : Bool

unfoldable pub new_stderr_buffer : StderrBuffer
unfolding stderr_buf_size
new_stderr_buffer = record { buf = replicate stderr_buf_size 0; pos = 0; is_full = false }

-- copy(buf[pos:], p): what does not fit is left out.
unfoldable pub copy_at : ℕ → List ℕ → List ℕ → List ℕ
copy_at pos [] p = []
copy_at (suc pos) (b ∷ buf) p = b ∷ copy_at pos buf p
copy_at zero (b ∷ buf) [] = b ∷ buf
copy_at zero (b ∷ buf) (x ∷ p) = x ∷ copy_at zero buf p

-- The rest of a write that fits before the end of the buffer: the branch that breaks.
unfoldable pub write_last : List ℕ → StderrBuffer → StderrBuffer
write_last p sb =
    let pos = sb.pos + length p in
    let buf = copy_at sb.pos sb.buf p in
    if pos == stderr_buf_size
    then record { buf = buf; pos = 0; is_full = true }
    else record { buf = buf; pos = pos; is_full = sb.is_full }

-- One round of the loop that fills the buffer up to its end.
unfoldable pub write_wrap : List ℕ → StderrBuffer → StderrBuffer
write_wrap p sb = record {
  buf = copy_at sb.pos sb.buf (take (stderr_buf_size - sb.pos) p);
  pos = 0;
  is_full = true;
}

-- The loop `for len(p) > 0`; `none` means that the fuel ran out.
unfoldable pub write_loop : ℕ → List ℕ → StderrBuffer → Option StderrBuffer
write_loop zero p sb = none
write_loop (suc fuel) [] sb = some sb
write_loop (suc fuel) (x ∷ p) sb =
    let space = stderr_buf_size - sb.pos in
    let rest = write_loop fuel (drop space (x ∷ p)) (write_wrap (x ∷ p) sb) in
    if leb (length (x ∷ p)) space then some (write_last (x ∷ p) sb) else rest

-- Write: the new state and the count that it reports. Each round takes a byte at least.
unfoldable pub write : List ℕ → StderrBuffer → Option (StderrBuffer × ℕ)
write p sb = elim (write_loop (suc (length p)) p sb) [
  | none ↦ none
  | some sb' ↦ some (sb', length p)
]

-- Tail: two copies into a new slice, the older part first.
unfoldable pub tail : StderrBuffer → List ℕ
tail sb =
    if sb.is_full
    then copy_at (stderr_buf_size - sb.pos)
        (copy_at 0 (replicate stderr_buf_size 0) (drop sb.pos sb.buf)) (take sb.pos sb.buf)
    else copy_at 0 (replicate sb.pos 0) (take sb.pos sb.buf)
