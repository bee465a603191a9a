-- ===== src/Hash/Rehash/Power.antt =====
-- src/hash.h, `Hash::getNextPower2`.
use native.Mathlib.Nat.{pow-suc}
use redis_db.Prelude.{
  ℕ, zero, suc, ◌*◌, ◌^◌, ◌≤◌, ◌<◌, ◌≡◌, refl, ◌⊎◌, inl, inr, arith, ltb, ltb→lt, le→ltb, lt→ltb,
  word, ok, Returns, Bool-cases, ap,
}
use redis_db.Hash.{double_until, get_next_power2}
use redis_db.Hash.Valid.{IsPower}

-- Either the first value tried, or less than twice what was asked for.
abbrev pub IsNext : ℕ → ℕ → Type 0
IsNext s n = IsPower n × (s ≤ n) × ((n ≡ 4) ⊎ (n < 2 * s))

double_until_stop : (f init s : ℕ) → s ≤ init → double_until (suc f) init s ≡ ok init
unfolding double_until
double_until_stop f init s h = rw (double_until, le→ltb init s h)

double_until_go :
    (f init s : ℕ)
    → init < s
    → s ≤ 2 ^ 63
    → double_until (suc f) init s ≡ double_until f (init * 2) s
unfolding double_until
double_until_go f init s lt small =
    let double : word (init * 2) ≡ init * 2 = omega arith in
    rw (double_until, lt→ltb init s lt, double)

double_until-IsNext :
    (f init s : ℕ)
    → IsPower init
    → (init ≡ 4) ⊎ (init < 2 * s)
    → s ≤ 2 ^ 63
    → s ≤ init * 2 ^ f
    → Returns (double_until (suc f) init s) (IsNext s)
double_until-IsNext zero init s power least small enough =
    (init, double_until_stop 0 init s (omega arith), (power, omega arith, least))
double_until-IsNext (suc f) init s (k, e, four) least small enough =
    elim (Bool-cases (ltb init s)) [
      | inr stop ↦
          let le : s ≤ init = ground arith in
          (init, double_until_stop (suc f) init s le, ((k, e, four), le, least))
      | inl go ↦
          let lt : init < s = ltb→lt init s go in
          rw (double_until_go (suc f) init s lt small) (
            double_until-IsNext f (init * 2) s (suc k, omega (arith, pow-suc 2 k), omega arith)
              (inr (omega arith)) small (omega (arith, ap (λ (t : ℕ). init * t) (pow-suc 2 f))))
    ]

-- For `s` up to 2 ^ 63 the loop ends, with the least power of two from 4 on that is not less than
-- `s`.
pub get_next_power2-IsNext : (s : ℕ) → s ≤ 2 ^ 63 → Returns (get_next_power2 s) (IsNext s)
unfolding get_next_power2
get_next_power2-IsNext s h =
    double_until-IsNext 63 4 s (2, refl, omega arith) (inl refl) h (omega arith)
