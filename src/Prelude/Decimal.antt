-- ===== src/Prelude/Decimal.antt =====
-- strconv.FormatInt(n, 10), and that it loses nothing.
use Prim.Native.Nat.{ℕ, zero, suc, ◌+◌, ◌-◌, ◌*◌, ◌/◌, ◌%◌, ◌^◌, ◌<◌}
use mathlib.Core.Path.{◌≡◌, ap, ◌∙◌}
use mathlib.Core.List.{[], ◌∷◌, ◌++◌, foldl, foldl-append}
use native.Mathlib.Omega.{arith}
use orbitproxy_go.Prelude.Tests.{ltb, if◌then◌else◌, Bool-cases}
use orbitproxy_go.Prelude.Strings.{Text}
use mathlib.Core.Logic.{inl, inr}

-- The digits of `n`, with fuel for them.
unfoldable pub decimal_loop : ℕ → ℕ → Text
decimal_loop zero n = []
decimal_loop (suc fuel) n =
    let more = decimal_loop fuel (n / 10) ++ (n % 10 + b'0') ∷ [] in
    if ltb n 10 then (n + b'0') ∷ [] else more

unfoldable pub decimal : ℕ → Text
unfolding decimal_loop
decimal n = decimal_loop (suc n) n

-- The text of an int64 that is given by its bit pattern.
unfoldable pub format_int : ℕ → Text
unfolding decimal
format_int n = if ltb n (2 ^ 63) then decimal n else b'-' ∷ decimal (2 ^ 64 - n)

-- The number that a row of digits writes.
abbrev step : ℕ → ℕ → ℕ
step acc c = acc * 10 + (c - b'0')

value : Text → ℕ
value = foldl step 0

value-decimal_loop : (fuel n : ℕ) → n < fuel → value (decimal_loop fuel n) ≡ n
unfolding value decimal_loop
value-decimal_loop zero n h = absurd (omega arith)
value-decimal_loop (suc fuel) n h = elim (Bool-cases (ltb n 10)) [
  | inl small ↦ rw small (ground arith)
  | inr large ↦
      let ih = value-decimal_loop fuel (n / 10) (ground arith) in
      rw large (
        foldl-append step 0 (decimal_loop fuel (n / 10)) ((n % 10 + b'0') ∷ [])
        ∙ ap (λ v. step v (n % 10 + b'0')) ih
        ∙ omega arith)
]

pub decimal-injective : (m n : ℕ) → decimal m ≡ decimal n → m ≡ n
unfolding decimal
decimal-injective m n h = omega (
  arith,
  value-decimal_loop (suc m) m (omega arith),
  value-decimal_loop (suc n) n (omega arith),
  ap value h,
)

pub format_int-injective : (m n : ℕ) → m < 2 ^ 63 → n < 2 ^ 63 → format_int m ≡ format_int n → m ≡ n
unfolding format_int
format_int-injective m n hm hn h = ground (arith, decimal-injective m n)
