-- ===== src/Hash/Scan/Loop.antt =====
-- src/hash.h, the loop of `Hash::scan` over the buckets of the larger table, run.
use native.Mathlib.Nat.{one-le-pow, mul-div_cancel, mul-lt-mul_of_pos_right}
use redis_db.Prelude.{
  ℕ, zero, suc, ◌+◌, ◌-◌, ◌*◌, ◌/◌, ◌%◌, ◌^◌, ◌≤◌, ◌<◌, ◌≡◌, refl, sym, ap, subst, ◌∙◌, Bool, true,
  false, ◌&&◌, List, arith, word, bit_and, bit_xor, ◌==◌, count_if, ok, Returns,
}
use redis_db.Traits.{Traits}
use redis_db.Table.{HashTable, get_bucket_head}
use redis_db.Table.Bags.{contents}
use redis_db.BitsOp.{rev}
use redis_db.BitsOp.Reverses.{rev-lt, rev-rev}
use redis_db.Hash.Valid.{IsHome}
use redis_db.Hash.Scan.{emit, next_cursor, scan_expansion}
use redis_db.Hash.Scan.Cursor.{powers, next_cursor_lem}
use redis_db.Hash.Scan.Expansions.{stops}
use redis_db.Hash.Scan.Stretches.{within, within_one, within_next}
use redis_db.Hash.Scan.Blocks.{place, count_if-cong, count_if-sum, count_if-emit_block}

module _ {ℓ} {T : Type ℓ} where
  expansion-stop :
      (fuel : ℕ) (t : HashTable T) (m₀ m₁ v w : ℕ) (values : List T)
      → next_cursor m₁ v ≡ w
      → (bit_and w (bit_xor m₀ m₁) == 0) ≡ true
      → scan_expansion (suc fuel) t m₀ m₁ v values
        ≡ ok (w, emit (get_bucket_head t (bit_and v m₁)) values)
  unfolding scan_expansion
  expansion-stop fuel t m₀ m₁ v w values e f = rw (scan_expansion, e, f, e) refl

  expansion-on :
      (fuel : ℕ) (t : HashTable T) (m₀ m₁ v w : ℕ) (values : List T)
      → next_cursor m₁ v ≡ w
      → (bit_and w (bit_xor m₀ m₁) == 0) ≡ false
      → scan_expansion (suc fuel) t m₀ m₁ v values
        ≡ scan_expansion fuel t m₀ m₁ w (emit (get_bucket_head t (bit_and v m₁)) values)
  unfolding scan_expansion
  expansion-on fuel t m₀ m₁ v w values e f = rw (scan_expansion, e, f, e) refl

module _ {ℓ} {T K : Type ℓ} (traits : Traits T K) (k e d : ℕ) (whole : k + e + d ≡ 64)
    (t : HashTable T) (home : IsHome traits t) (width : t.buckets_number ≡ 2 ^ (k + e)) where
  abbrev m₀ : ℕ
  m₀ = 2 ^ k - 1

  abbrev m₁ : ℕ
  m₁ = 2 ^ (k + e) - 1

  -- The nodes of the stretches `a` up to `c` of the walk.
  abbrev pub found : (T → Bool) → (a c : ℕ) → ℕ
  found q a c = count_if (λ n. q n.value && within a c (place traits n / 2 ^ d)) (contents t)

  -- The bucket of the cursor, and the next cursor.
  here :
      (a v : ℕ) (values : List T) (q : T → Bool)
      → v < 2 ^ 64
      → rev v / 2 ^ d ≡ a
      → count_if q (emit (get_bucket_head t (bit_and v m₁)) values)
        ≡ count_if q values
          + count_if (λ n. q n.value && (place traits n / 2 ^ d == a)) (contents t)
  here a v values q lt at =
      subst
        (λ x.
          count_if q (emit (get_bucket_head t (bit_and v m₁)) values)
          ≡ count_if q values
            + count_if (λ n. q n.value && (place traits n / 2 ^ d == x)) (contents t))
        at (count_if-emit_block traits (k + e) d whole t v values q home width lt)

  next : (a v : ℕ) → v < 2 ^ 64 → rev v / 2 ^ d ≡ a → next_cursor m₁ v ≡ rev (word (suc a * 2 ^ d))
  next a v lt at =
      let one : a + 1 ≡ suc a = omega arith in
      next_cursor_lem (k + e) d whole v lt
      ∙ ap (λ x. rev (word ((x + 1) * 2 ^ d))) at
      ∙ ap (λ x. rev (word (x * 2 ^ d))) one

  -- From the cursor of bucket `a`, the loop comes to bucket `c`, the first whose number is a multiple
  -- of `2 ^ e`, and emits those from `a` up to there.
  pub scan_expansion-Returns :
      (left fuel a c v : ℕ) (values : List T)
      → v < 2 ^ 64
      → rev v / 2 ^ d ≡ a
      → left < fuel
      → c ≡ suc (a + left)
      → c ≤ 2 ^ (k + e)
      → (c % 2 ^ e == 0) ≡ true
      → ((b : ℕ) → a < b → b < c → (b % 2 ^ e == 0) ≡ false)
      → Returns (scan_expansion fuel t m₀ m₁ v values) λ r.
        (r.0 ≡ rev (word (c * 2 ^ d)))
        × ((q : T → Bool) → count_if q r.1 ≡ count_if q values + found q a c)
  scan_expansion-Returns left zero a c v values lt at le end inside stop goes = absurd (omega arith)
  scan_expansion-Returns zero (suc fuel) a c v values lt at le end inside stop goes =
      let last : c ≡ suc a = omega arith in
      let w = rev (word (c * 2 ^ d)) in
      (
        _,
        expansion-stop fuel t m₀ m₁ v w values
            (next a v lt at ∙ ap (λ x. rev (word (x * 2 ^ d))) (sym last))
            (stops k e d whole c ∙ stop),
        (
          refl,
          λ q.
              here a v values q lt at
              ∙ ap (λ n. count_if q values + n)
                  (count_if-cong _ _ (λ n. within_one (q n.value) a c (place traits n / 2 ^ d) last)
                    (contents t)),
        ),
      )
  scan_expansion-Returns (suc left) (suc fuel) a c v values lt at le end inside stop goes =
      let w = rev (word (suc a * 2 ^ d)) in
      let positive = one-le-pow d 2 (omega arith) in
      let below : suc a * 2 ^ d < 2 ^ 64 = omega (
        arith,
        powers (k + e) d whole,
        mul-lt-mul_of_pos_right {m = suc a} {n = 2 ^ (k + e)} {k = 2 ^ d} (omega arith) positive,
      ) in
      let same : word (suc a * 2 ^ d) ≡ suc a * 2 ^ d = omega arith in
      let place_of : rev w / 2 ^ d ≡ suc a =
        ap (λ x. x / 2 ^ d) (rev-rev (word (suc a * 2 ^ d)) (omega arith) ∙ same)
        ∙ mul-div_cancel (suc a) positive in
      let emitted = emit (get_bucket_head t (bit_and v m₁)) values in
      let (r, run, (cursor, count)) =
        scan_expansion-Returns left fuel (suc a) c w emitted
          (rev-lt (word (suc a * 2 ^ d)) (omega arith)) place_of (omega arith) (omega arith) inside
          stop (λ b above under. goes b (omega arith) under) in
      (
        r,
        expansion-on fuel t m₀ m₁ v w values (next a v lt at)
              (stops k e d whole (suc a) ∙ goes (suc a) (omega arith) (omega arith))
            ∙ run,
        (
          cursor,
          λ q.
              let both =
                count_if-sum _ _ _
                  (λ n. within_next (q n.value) a c (place traits n / 2 ^ d) (omega arith))
                  (contents t) in
              omega (arith, count q, here a v values q lt at, both),
        ),
      )
