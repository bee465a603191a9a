-- ===== src/BitsOp/Tests.antt =====
-- Runs of `BitsOp::rev`.
use redis_db.Prelude.{arith, ◌+◌, ◌*◌, ◌^◌, ◌≡◌, refl}
use redis_db.BitsOp.{rev}
use redis_db.BitsOp.Digits.{digit}
use redis_db.BitsOp.Reverses.{rev-digits, rev-rev}

rev_one : rev 1 ≡ 2 ^ 63
unfolding rev
rev_one = refl

rev_pattern : rev (11 * 2 ^ 40 + 5) ≡ 13 * 2 ^ 20 + 5 * 2 ^ 61
unfolding rev
rev_pattern = refl

rev-digits_example : digit 60 (rev 44) ≡ digit 3 44
rev-digits_example = rev-digits 44 60 (omega arith)

rev-rev_example : rev (rev 44) ≡ 44
rev-rev_example = rev-rev 44 (omega arith)
