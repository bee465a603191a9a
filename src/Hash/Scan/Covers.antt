-- ===== src/Hash/Scan/Covers.antt =====
-- src/hash.h, `Hash::scan`: what one call covers of the walk, and that it does with no rehash going
-- on.
use native.Mathlib.Nat.{one-le-pow, add-mul, one-mul}
use redis_db.Prelude.{
  ℕ, ◌+◌, ◌-◌, ◌*◌, ◌/◌, ◌^◌, ◌≤◌, ◌<◌, ◌≡◌, sym, ap, ◌∙◌, Bool, ◌&&◌, List, arith, word, bit_and,
  count_if,
}
use redis_db.Traits.{Traits}
use redis_db.Table.{HashTable, get_bucket_head}
use redis_db.Table.Bags.{contents}
use redis_db.BitsOp.{rev}
use redis_db.Hash.{Hash}
use redis_db.Hash.Valid.{IsHome, IsResting, count, count-le, count-resting}
use redis_db.Hash.Scan.{emit, mask_of, next_cursor, scan_one}
use redis_db.Hash.Scan.Cursor.{next_cursor_lem}
use redis_db.Hash.Scan.Blocks.{place, count_if-cong, count_if-emit_block}
use redis_db.Hash.Scan.Stretches.{start_of, within, same_stretch, start_of-le, within-le}

pub mask_of-power : (k n : ℕ) → n ≡ 2 ^ k → n < 2 ^ 31 → mask_of n ≡ 2 ^ k - 1
mask_of-power k n e small = omega (arith, e, one-le-pow k 2 (omega arith))

module _ {ℓ} {T K : Type ℓ} (traits : Traits T K) where
  -- What a call with the cursor `v` makes of `values`, where a bucket of the smaller table is a
  -- stretch of `width` places: the cursor of the next stretch; the values of the nodes from the
  -- cursor on, and none but those of the stretch.
  pub record CoversBy (width : ℕ) (h : Hash T) (v : ℕ) (values : List T) (r : ℕ × List T)
      : Type ℓ where
    pub positive : 0 < width
    pub cursor : r.0 ≡ rev (word (start_of width (rev v) + width))
    pub at_least :
        (q : T → Bool)
        → count_if q values
            + count
                (λ n. q n.value && within (rev v) (start_of width (rev v) + width) (place traits n))
                h
          ≤ count_if q r.1
    pub at_most :
        (q : T → Bool)
        → count_if q r.1
          ≤ count_if q values
            + count
                (λ n.
                  q n.value
                  && within
                      (start_of width (rev v))
                      (start_of width (rev v) + width)
                      (place traits n))
                h

  -- The cursor after the stretch.
  after :
      (k d : ℕ) (e : k + d ≡ 64) (v : ℕ)
      → v < 2 ^ 64
      → next_cursor (2 ^ k - 1) v ≡ rev (word (start_of (2 ^ d) (rev v) + 2 ^ d))
  after k d e v lt =
      let j = rev v / 2 ^ d in
      let next : (j + 1) * 2 ^ d ≡ j * 2 ^ d + 2 ^ d =
        omega (arith, add-mul j 1 (2 ^ d), one-mul (2 ^ d)) in
      next_cursor_lem k d e v lt ∙ ap (λ n. rev (word n)) next

  module _ (k d : ℕ) (e : k + d ≡ 64) (t : HashTable T) (home : IsHome traits t)
      (width : t.buckets_number ≡ 2 ^ k) where
    -- The bucket at the cursor is the whole of its stretch.
    pub emit-stretch :
        (v : ℕ) (values : List T) (q : T → Bool)
        → v < 2 ^ 64
        → count_if q (emit (get_bucket_head t (bit_and v (2 ^ k - 1))) values)
          ≡ count_if q values
            + count_if
                (λ n.
                  q n.value
                  && within
                      (start_of (2 ^ d) (rev v))
                      (start_of (2 ^ d) (rev v) + 2 ^ d)
                      (place traits n))
                (contents t)
    emit-stretch v values q lt =
        count_if-emit_block traits k d e t v values q home width lt
        ∙ ap (λ n. count_if q values + n)
            (count_if-cong _ _
              (λ n.
                ap (λ b. q n.value && b)
                  (same_stretch (2 ^ d) (one-le-pow d 2 (omega arith)) (rev v) (place traits n)))
              (contents t))

  -- With no rehash going on.
  module _ (k d : ℕ) (e : k + d ≡ 64) (h : Hash T) (r : IsResting traits h)
      (width : h.active.buckets_number ≡ 2 ^ k) where
    -- A call emits the values of a stretch, and no other.
    pub scan_one-stretch :
        (v : ℕ) (values : List T)
        → v < 2 ^ 64
        → (q : T → Bool)
        → count_if q (scan_one h.active v values).1
          ≡ count_if q values
            + count
                (λ n.
                  q n.value
                  && within
                      (start_of (2 ^ d) (rev v))
                      (start_of (2 ^ d) (rev v) + 2 ^ d)
                      (place traits n))
                h
    unfolding scan_one
    scan_one-stretch v values lt q =
        ap (λ m. count_if q (emit (get_bucket_head h.active (bit_and v m)) values))
          (mask_of-power k h.active.buckets_number width r.home.small)
        ∙ emit-stretch k d e h.active r.home width v values q lt
        ∙ ap (λ n. count_if q values + n) (sym (count-resting traits _ r))

    pub scan_one-cursor :
        (v : ℕ) (values : List T)
        → v < 2 ^ 64
        → (scan_one h.active v values).0 ≡ rev (word (start_of (2 ^ d) (rev v) + 2 ^ d))
    unfolding scan_one
    scan_one-cursor v values lt =
        ap (λ m. next_cursor m v) (mask_of-power k h.active.buckets_number width r.home.small)
        ∙ after k d e v lt

    pub scan_one-CoversBy :
        (v : ℕ) (values : List T)
        → v < 2 ^ 64
        → CoversBy (2 ^ d) h v values (scan_one h.active v values)
    scan_one-CoversBy v values lt =
        let x = rev v in
        let W = 2 ^ d in
        record {
          positive = one-le-pow d 2 (omega arith);
          cursor = scan_one-cursor v values lt;
          at_least = λ q. omega (
            arith,
            scan_one-stretch v values lt q,
            count-le (λ n. q n.value && within x (start_of W x + W) (place traits n)) _
                (λ n.
                  within-le (q n.value) x (start_of W x + W) (start_of W x) (start_of W x + W)
                    (place traits n) (place traits n)
                    (λ le. omega (arith, start_of-le W (one-le-pow d 2 (omega arith)) x))
                    (λ under. under))
                h,
          );
          at_most = λ q. omega (arith, scan_one-stretch v values lt q);
        }
