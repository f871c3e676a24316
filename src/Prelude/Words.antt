-- ===== src/Prelude/Words.antt =====
-- Go's `int` (64 bits) and `int32` counters as bit patterns, with their wrap-around.
use Prim.Native.Nat.{ℕ, ◌+◌, ◌-◌, ◌%◌, ◌^◌}
use mathlib.Core.Bool.{Bool, ◌&&◌, ◌||◌}
use orbitproxy_go.Prelude.Tests.{ltb, leb, ◌==◌}

-- n + 1 and n - 1 on an `int`
abbrev pub inc_int : ℕ → ℕ
inc_int n = (n + 1) % 2 ^ 64

abbrev pub dec_int : ℕ → ℕ
dec_int n = (n + (2 ^ 64 - 1)) % 2 ^ 64

-- n + 1 and n - 1 on an `int32`
abbrev pub inc_int32 : ℕ → ℕ
inc_int32 n = (n + 1) % 2 ^ 32

abbrev pub dec_int32 : ℕ → ℕ
dec_int32 n = (n + (2 ^ 32 - 1)) % 2 ^ 32

-- The signed tests `n <= 0` and `n >= m`, for a natural m.
abbrev pub int_non_positive : ℕ → Bool
int_non_positive n = n == 0 || leb (2 ^ 63) n

abbrev pub int_at_least : ℕ → ℕ → Bool
int_at_least n m = ltb n (2 ^ 63) && leb m n

abbrev pub int32_at_least : ℕ → ℕ → Bool
int32_at_least n m = ltb n (2 ^ 31) && leb m n
