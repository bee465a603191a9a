-- ===== src/Prelude/Words.antt =====
-- 64-bit words (`size_t`, `unsigned long`) and the conversions between `int` and `size_t`.
use Prim.Native.Nat.{
  ℕ, suc, zero, ◌+◌, ◌-◌, ◌*◌, ◌/◌, ◌%◌, ◌^◌, ◌≤◌, ◌<◌, bit_and, bit_and-bitwise, digits, min,
}
use native.Mathlib.Nat.{pow-suc, one-le-pow}
use mathlib.Core.Path.{◌≡◌, ap}
use native.Mathlib.Omega.{arith}
use redis_db.Prelude.Tests.{ltb, lt→ltb, if◌then◌else◌}

abbrev pub word : ℕ → ℕ
word n = n % 2 ^ 64

-- `static_cast<int>` of a `size_t`, seen again as a `size_t`: the low 32 bits, sign-extended.
abbrev pub int_to_size : ℕ → ℕ
int_to_size n = let m = n % 2 ^ 32 in if ltb m (2 ^ 31) then m else m + (2 ^ 64 - 2 ^ 32)

pub int_to_size_small : (n : ℕ) → n < 2 ^ 31 → int_to_size n ≡ n
int_to_size_small n h = let e : n % 2 ^ 32 ≡ n = omega arith in rw (e, lt→ltb n (2 ^ 31) h)

pub double_field : (k q : ℕ) → 2 * (q * 2 ^ k) ≡ q * 2 ^ suc k
double_field k q = omega (arith, ap (λ p. q * p) (pow-suc 2 k))

-- The recursion on binary digits behind `bit_and`, with `k` ones for the second number and a first
-- number that is `r` in its lowest `k` digits.
low_digits :
    (n k q r a : ℕ)
    → a ≤ n
    → a ≡ q * 2 ^ k + r
    → r < 2 ^ k
    → digits (λ _. zero) min n a (2 ^ k - 1) ≡ r
low_digits zero k q r zero le e lt = omega arith
low_digits zero k q r (suc a) le e lt = absurd (omega arith)
low_digits (suc n) k q r zero le e lt = omega arith
low_digits (suc n) zero q r (suc a) le e lt =
    omega (arith, low_digits n zero (suc a / 2) 0 (suc a / 2) (omega arith) (omega arith))
low_digits (suc n) (suc k) q r (suc a) le e lt =
    let halved : suc a / 2 ≡ q * 2 ^ k + r / 2 = omega (arith, double_field k q) in
    let rest = low_digits n k q (r / 2) (suc a / 2) (omega arith) halved (omega arith) in
    let mask : (2 ^ suc k - 1) / 2 ≡ 2 ^ k - 1 = omega (arith, pow-suc 2 k) in
    rw mask (omega (arith, rest, double_field k q, pow-suc 2 k, one-le-pow k 2))

-- A mask of `k` low bits is the remainder by `2 ^ k`.
pub bit_and_mask : (k a : ℕ) → bit_and a (2 ^ k - 1) ≡ a % 2 ^ k
bit_and_mask k a = ground (
  arith,
  bit_and-bitwise a (2 ^ k - 1),
  one-le-pow k 2,
  low_digits a k (a / 2 ^ k) (a % 2 ^ k) a (omega arith),
)
