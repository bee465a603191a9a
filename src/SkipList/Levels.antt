-- ===== src/SkipList/Levels.antt =====
-- src/SkipList.h, `generateRandomLevel`.
use redis_db.Prelude.{ℕ, ◌*◌, Bool, ltb, bit_and}

-- The draw is below a quarter of the range.
abbrev pub is_low_draw : (rand : ℕ → ℕ) → ℕ → Bool
is_low_draw rand i = ltb (bit_and (rand i) 0xFFFF * 4) (0xFFFF)
