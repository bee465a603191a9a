-- ===== src/Prelude/Float.antt =====
-- `float` (IEEE 754 binary32) as far as the program uses it: whole numbers converted to `float`.
use Prim.Native.Nat.{ℕ, zero, suc, ◌+◌, ◌-◌, ◌*◌, ◌/◌, ◌%◌, ◌^◌, ◌<◌}
use mathlib.Core.Path.{◌≡◌}
use mathlib.Core.Bool.{true, false, ◌&&◌, ◌||◌}
use redis_db.Prelude.Tests.{ltb, ◌==◌, if◌then◌else◌, lt→ltb}

-- How many low bits do not fit a significand of 24 bits; a 64-bit word has at most 40 of them.
excess_bits : ℕ → ℕ → ℕ
excess_bits zero n = 0
excess_bits (suc fuel) n = elim (ltb n (2 ^ 24)) [
  | true ↦ 0
  | false ↦ suc (excess_bits fuel (n / 2))
]

-- The nearest multiple of 2 ^ e, the even one of two that are equally near.
round_even : ℕ → ℕ → ℕ
round_even n e =
    let q = n / 2 ^ e in
    let r = n % 2 ^ e in
    let half = 2 ^ (e - 1) in
    if ltb half r || (r == half && q % 2 == 1) then (q + 1) * 2 ^ e else q * 2 ^ e

-- The value of `static_cast<float>(n)` for a `size_t`.
unfoldable pub to_float : ℕ → ℕ
unfolding excess_bits round_even
to_float n = let e = excess_bits 40 n in if e == 0 then n else round_even n e

-- Numbers below 2 ^ 24 are exact.
pub to_float_exact : (n : ℕ) → n < 2 ^ 24 → to_float n ≡ n
unfolding to_float
to_float_exact n h = rw (lt→ltb n (2 ^ 24) h, excess_bits)
