-- ===== src/Hash/Scan/Both.antt =====
-- src/hash.h, `Hash::scan`: what one call covers of the walk while a rehash is going on.
use native.Mathlib.Nat.{one-le-pow}
use redis_db.Prelude.{
  ℕ, suc, ◌+◌, ◌-◌, ◌*◌, ◌/◌, ◌^◌, ◌≤◌, ◌<◌, ◌≡◌, refl, ap, ◌∙◌, Bool, ◌&&◌, List, arith, word,
  bit_and, count_if, count_if-le, Returns,
}
use redis_db.Traits.{Traits}
use redis_db.Table.{HashNode, HashTable, get_bucket_head}
use redis_db.Table.Bags.{contents}
use redis_db.BitsOp.{rev}
use redis_db.BitsOp.Reverses.{rev-lt}
use redis_db.Hash.{Hash}
use redis_db.Hash.Valid.{IsHome, count}
use redis_db.Hash.Scan.{emit, scan_expansion, scan_both}
use redis_db.Hash.Scan.Cursor.{pow_sum, quotient-lt}
use redis_db.Hash.Scan.Blocks.{place}
use redis_db.Hash.Scan.Loop.{found, scan_expansion-Returns}
use redis_db.Hash.Scan.Covers.{CoversBy, mask_of-power, emit-stretch}
use redis_db.Hash.Scan.Stretches.{
  start_of, within, start_of-le, within-le, stop_of, stop-end, stop-multiple, stop-above, stop-le,
  stop-first, ahead-le, behind-le,
}

module _ {ℓ} {T K : Type ℓ} (traits : Traits T K) where
  -- Of a table of `2 ^ k` buckets and one of `2 ^ (k + e)`.
  module _ (k e d : ℕ) (whole : k + e + d ≡ 64) (t₀ t₁ : HashTable T) (home₀ : IsHome traits t₀)
      (home₁ : IsHome traits t₁) (width₀ : t₀.buckets_number ≡ 2 ^ k)
      (width₁ : t₁.buckets_number ≡ 2 ^ (k + e)) where
    -- The numbers of a bucket of the smaller table.
    abbrev W : ℕ
    W = 2 ^ (d + e)

    split : W ≡ 2 ^ d * 2 ^ e
    split = pow_sum d e

    -- The loop over the expansions, from the cursor of the call.
    expansions-Returns :
        (v : ℕ) (values : List T)
        → v < 2 ^ 64
        → Returns (scan_expansion t₁.buckets_number t₁ (2 ^ k - 1) (2 ^ (k + e) - 1) v values) λ r.
          (r.0 ≡ rev (word (stop_of (2 ^ d) (2 ^ e) (rev v) * 2 ^ d)))
          × ((q : T → Bool)
              → count_if q r.1
                ≡ count_if q values
                  + found traits k e d whole t₁ home₁ width₁ q
                      (rev v / 2 ^ d)
                      (stop_of (2 ^ d) (2 ^ e) (rev v)))
    expansions-Returns v values lt =
        let c = stop_of (2 ^ d) (2 ^ e) (rev v) in
        let a = rev v / 2 ^ d in
        let one_d = one-le-pow d 2 (omega arith) in
        let one_e = one-le-pow e 2 (omega arith) in
        let above = stop-above (2 ^ d) (2 ^ e) W one_d one_e split (rev v) in
        let inside : c ≤ 2 ^ (k + e) = omega (
          arith,
          pow_sum k e,
          stop-le (2 ^ d) (2 ^ e) W one_d one_e split (rev v) (2 ^ k)
              (omega (arith, pow_sum k e, quotient-lt (k + e) d whole (rev v) (rev-lt v lt))),
        ) in
        scan_expansion-Returns traits k e d whole t₁ home₁ width₁ (c - suc a) t₁.buckets_number a c
          v values lt refl (omega (arith, width₁)) (omega arith) inside
          (stop-multiple (2 ^ d) (2 ^ e) W one_d one_e split (rev v))
          (stop-first (2 ^ d) (2 ^ e) W one_d one_e split (rev v))

    scan_both-loop :
        (v : ℕ) (values : List T)
        → scan_both t₀ t₁ v values
          ≡ scan_expansion t₁.buckets_number t₁
              (2 ^ k - 1)
              (2 ^ (k + e) - 1)
              v
              (emit (get_bucket_head t₀ (bit_and v (2 ^ k - 1))) values)
    unfolding scan_both
    scan_both-loop v values =
        rw
          (
            mask_of-power k t₀.buckets_number width₀ home₀.small,
            mask_of-power (k + e) t₁.buckets_number width₁ home₁.small,
          )
          refl

    pub scan_both-CoversBy :
        (h : Hash T) (v : ℕ) (values : List T)
        → ((p : HashNode T → Bool)
            → count p h ≡ count_if p (contents t₀) + count_if p (contents t₁))
        → v < 2 ^ 64
        → Returns (scan_both t₀ t₁ v values) (CoversBy traits W h v values)
    scan_both-CoversBy h v values parts lt =
        let one_d = one-le-pow d 2 (omega arith) in
        let one_e = one-le-pow e 2 (omega arith) in
        let one_W = one-le-pow (d + e) 2 (omega arith) in
        let x = rev v in
        let emitted = emit (get_bucket_head t₀ (bit_and v (2 ^ k - 1))) values in
        let bucket_of =
          emit-stretch traits k (d + e) (omega (arith, whole)) t₀ home₀ width₀ v values in
        let (r, run, (cursor, counts)) = expansions-Returns v emitted lt in
        (
          r,
          scan_both-loop v values ∙ run,
          record {
            positive = one_W;
            cursor =
                cursor ∙ ap (λ n. rev (word n)) (stop-end (2 ^ d) (2 ^ e) W one_d one_e split x);
            at_least = λ q. omega (
              arith,
              counts q,
              bucket_of q lt,
              parts (λ n. q n.value && within x (start_of W x + W) (place traits n)),
              count_if-le (λ n. q n.value && within x (start_of W x + W) (place traits n)) _
                  (λ n.
                    within-le (q n.value) x (start_of W x + W) (start_of W x) (start_of W x + W)
                      (place traits n) (place traits n) (λ le. omega (arith, start_of-le W one_W x))
                      (λ under. under))
                  (contents t₀),
              count_if-le _ _
                  (λ n. ahead-le (2 ^ d) (2 ^ e) W one_d one_e split (q n.value) x (place traits n))
                  (contents t₁),
            );
            at_most = λ q. omega (
              arith,
              counts q,
              bucket_of q lt,
              parts (λ n. q n.value && within (start_of W x) (start_of W x + W) (place traits n)),
              count_if-le _ _
                  (λ n.
                    behind-le (2 ^ d) (2 ^ e) W one_d one_e split (q n.value) x (place traits n))
                  (contents t₁),
            );
          },
        )
