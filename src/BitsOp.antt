-- ===== src/BitsOp.antt =====
-- src/Util.h, `BitsOp::rev`: the binary digits of an `unsigned long` in reverse.
pub mod Digits
pub mod Reverses
mod Tests
use redis_db.Prelude.{
  ℕ, zero, suc, ◌-◌, ◌*◌, ◌/◌, ◌^◌, Bool, true, false, ltb, word, bit_and, bit_or, bit_xor,
}

-- `~v`
abbrev pub complement : ℕ → ℕ
complement v = 2 ^ 64 - 1 - v

-- The loop, whose shift `s` is halved in each round.
unfoldable pub rev_loop : (fuel s mask v : ℕ) → ℕ
rev_loop zero s mask v = v
rev_loop (suc fuel) s mask v = elim (ltb 0 (s / 2)) [
  | false ↦ v
  | true ↦
      let shift = s / 2 in
      let field = bit_xor mask (word (mask * 2 ^ shift)) in
      rev_loop fuel shift field
        (bit_or (bit_and (v / 2 ^ shift) field) (bit_and (word (v * 2 ^ shift)) (complement field)))
]

-- The shift goes from 64 to 0 in seven halvings.
unfoldable pub rev : ℕ → ℕ
unfolding rev_loop
rev v = rev_loop 7 64 (2 ^ 64 - 1) v
