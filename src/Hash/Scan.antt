-- ===== src/Hash/Scan.antt =====
-- src/hash.h, `Hash::scan`: a walk over the buckets with a cursor that counts in reversed binary
-- digits.
pub mod Emits
pub mod Cursor
pub mod Stretches
pub mod Loop
pub mod Blocks
pub mod Expansions
pub mod Covers
pub mod Both
pub mod Calls
pub mod Guarantee
pub mod Whole
pub mod Once
use redis_db.Prelude.{
  ℕ, zero, suc, ◌+◌, ◌-◌, ◌^◌, Bool, true, false, List, [], ◌∷◌, ◌++◌, if◌then◌else◌, ltb, ◌==◌,
  word, bit_and, bit_or, bit_xor, Run, ok, diverges, ◌>>=◌, deref,
}
use redis_db.BitsOp.{complement, rev}
use redis_db.Table.{HashNode, Chain, HashTable, get_bucket_head}
use redis_db.Hash.{Hash, is_rehashing}

-- The mask of a table: its number of buckets, less one.
abbrev pub mask_of : ℕ → ℕ
mask_of n = word (n + (2 ^ 64 - 1))

-- The cursor with its unmasked bits set, incremented from the highest digit down.
unfoldable pub next_cursor : (mask v : ℕ) → ℕ
next_cursor mask v = rev (word (rev (bit_or v (complement mask)) + 1))

module _ {ℓ} {T : Type ℓ} where
  -- The loop that pushes the values of a chain.
  unfoldable pub emit : Chain T → List T → List T
  emit [] values = values
  emit (n ∷ c) values = emit c (values ++ (n.value ∷ []))

  -- The loop over the buckets of the larger table, on fuel.
  unfoldable pub scan_expansion :
      (fuel : ℕ) → HashTable T → (m₀ m₁ v : ℕ) → List T → Run (ℕ × List T)
  unfolding emit next_cursor
  scan_expansion zero t m₀ m₁ v values = diverges
  scan_expansion (suc fuel) t m₀ m₁ v values =
      let emitted = emit (get_bucket_head t (bit_and v m₁)) values in
      let w = next_cursor m₁ v in
      elim (bit_and w (bit_xor m₀ m₁) == 0) [
        | true ↦ ok (w, emitted)
        | false ↦ scan_expansion fuel t m₀ m₁ w emitted
      ]

  -- While no rehash is going on.
  unfoldable pub scan_one : HashTable T → ℕ → List T → ℕ × List T
  unfolding emit next_cursor
  scan_one t v values =
      let m = mask_of t.buckets_number in
      (next_cursor m v, emit (get_bucket_head t (bit_and v m)) values)

  -- Of two tables: the bucket of the smaller one, then its expansions in the larger one.
  unfoldable pub scan_both : HashTable T → HashTable T → ℕ → List T → Run (ℕ × List T)
  unfolding emit scan_expansion
  scan_both t₀ t₁ v values =
      let m₀ = mask_of t₀.buckets_number in
      let m₁ = mask_of t₁.buckets_number in
      scan_expansion t₁.buckets_number t₁ m₀ m₁ v (emit (get_bucket_head t₀ (bit_and v m₀)) values)

  -- The cursor to go on with, and the values with those emitted behind.
  unfoldable pub scan : Hash T → ℕ → List T → Run (ℕ × List T)
  unfolding is_rehashing scan_one scan_both
  scan h v values =
      if h.active.size == 0
      then ok (0, values)
      else if is_rehashing h
      then (do
        b ← deref h.backup
        if ltb b.buckets_number h.active.buckets_number
            then scan_both b h.active v values
            else scan_both h.active b v values)
      else ok (scan_one h.active v values)
