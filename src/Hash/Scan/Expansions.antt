-- ===== src/Hash/Scan/Expansions.antt =====
-- src/hash.h, where the loop of `Hash::scan` over the buckets of the larger table ends.
use Prim.Native.Nat.{differ}
use native.Mathlib.Nat.{one-le-pow, mod-lt, div-add-mod', pow-le-pow_right}
use redis_db.Prelude.{
  ℕ, ◌+◌, ◌-◌, ◌*◌, ◌/◌, ◌%◌, ◌^◌, ◌≤◌, ◌<◌, ◌≡◌, sym, ap, ◌∙◌, arith, word, bit_and, bit_xor, ltb,
  ltb→lt, ltb→le, ◌==◌, ==→≡, ≡→==, ≢→==, Bool-cases, inl, inr,
}
use redis_db.BitsOp.{rev}
use redis_db.BitsOp.Digits.{
  digit, digit-lt, digit-zero, digit-injective, digit-bit_and, digit-bit_xor, digit-high, digit-low,
  digit-word, bit_and-lt, bit_xor-lt,
}
use redis_db.BitsOp.Reverses.{rev-digits, rev-lt}
use redis_db.Hash.Scan.Cursor.{digit-mask-low, digit-above}

-- A table of `2 ^ k` buckets and one of `2 ^ (k + e)`; `2 ^ d` numbers make up a bucket of the
-- second.
module _ (k e d : ℕ) (whole : k + e + d ≡ 64) where
  -- The digits in which the masks differ.
  masks_low : (t : ℕ) → t < k → digit t (bit_xor (2 ^ k - 1) (2 ^ (k + e) - 1)) ≡ 0
  masks_low t lt =
      digit-bit_xor t (2 ^ k - 1) (2 ^ (k + e) - 1)
      ∙ ap (λ x. differ x (digit t (2 ^ (k + e) - 1))) (digit-mask-low k t lt)
      ∙ ap (λ x. differ 1 x) (digit-mask-low (k + e) t (omega arith))

  masks_high : (t : ℕ) → k + e ≤ t → digit t (bit_xor (2 ^ k - 1) (2 ^ (k + e) - 1)) ≡ 0
  masks_high t le =
      digit-bit_xor t (2 ^ k - 1) (2 ^ (k + e) - 1)
      ∙ ap (λ x. differ x (digit t (2 ^ (k + e) - 1)))
          (digit-above k t (2 ^ k - 1) (omega (arith, one-le-pow k 2 (omega arith))) (omega arith))
      ∙ ap (λ x. differ 0 x)
          (digit-above (k + e) t (2 ^ (k + e) - 1)
            (omega (arith, one-le-pow (k + e) 2 (omega arith))) le)

  masks_differ : (t : ℕ) → k ≤ t → t < k + e → digit t (bit_xor (2 ^ k - 1) (2 ^ (k + e) - 1)) ≡ 1
  masks_differ t le lt =
      digit-bit_xor t (2 ^ k - 1) (2 ^ (k + e) - 1)
      ∙ ap (λ x. differ x (digit t (2 ^ (k + e) - 1)))
          (digit-above k t (2 ^ k - 1) (omega (arith, one-le-pow k 2 (omega arith))) le)
      ∙ ap (λ x. differ 0 x) (digit-mask-low (k + e) t lt)

  -- The digits of the cursor of bucket `b` that the smaller mask leaves out.
  tail-digit :
      (b s : ℕ) → s < e → digit (63 - (s + d)) (rev (word (b * 2 ^ d))) ≡ digit s (b % 2 ^ e)
  tail-digit b s lt =
      let back : 63 - (63 - (s + d)) ≡ s + d = omega arith in
      let padded : b * 2 ^ d ≡ b * 2 ^ d + 0 = omega arith in
      rev-digits (word (b * 2 ^ d)) (63 - (s + d)) (omega arith)
      ∙ ap (λ j. digit j (word (b * 2 ^ d))) back
      ∙ digit-word (s + d) (b * 2 ^ d) (omega arith)
      ∙ ap (digit (s + d)) padded
      ∙ digit-high d b 0 s (one-le-pow d 2 (omega arith))
      ∙ ap (digit s) (sym (div-add-mod' b (2 ^ e)))
      ∙ digit-low e (b / 2 ^ e) (b % 2 ^ e) s (mod-lt b (one-le-pow e 2 (omega arith))) lt

  leaves :
      (b : ℕ)
      → bit_and (rev (word (b * 2 ^ d))) (bit_xor (2 ^ k - 1) (2 ^ (k + e) - 1)) ≡ 0
      → b % 2 ^ e ≡ 0
  leaves b stop =
      digit-injective e (b % 2 ^ e) 0 (mod-lt b (one-le-pow e 2 (omega arith)))
        (one-le-pow e 2 (omega arith))
        λ s lt.
          let t = 63 - (s + d) in
          let w = rev (word (b * 2 ^ d)) in
          omega (
            arith,
            tail-digit b s lt,
            digit-bit_and t w (bit_xor (2 ^ k - 1) (2 ^ (k + e) - 1)),
            ap (digit t) stop,
            digit-zero t,
            digit-zero s,
            masks_differ t (omega arith) (omega arith),
            digit-lt t w,
          )

  stays-digit :
      (b t : ℕ)
      → b % 2 ^ e ≡ 0
      → digit t (bit_and (rev (word (b * 2 ^ d))) (bit_xor (2 ^ k - 1) (2 ^ (k + e) - 1))) ≡ 0
  stays-digit b t stop =
      let w = rev (word (b * 2 ^ d)) in
      let both = digit-bit_and t w (bit_xor (2 ^ k - 1) (2 ^ (k + e) - 1)) in
      elim (Bool-cases (ltb t k)) [
        | inl f ↦ omega (arith, both, masks_low t (ltb→lt t k f))
        | inr f ↦ elim (Bool-cases (ltb t (k + e))) [
          | inl g ↦
              let low = ltb→lt t (k + e) g in
              let high = ltb→le t k f in
              let s = k + e - 1 - t in
              let at : t ≡ 63 - (s + d) = omega arith in
              omega (
                arith,
                both,
                ap (λ j. digit j w) at,
                tail-digit b s (omega arith),
                ap (digit s) stop,
                digit-zero s,
              )
          | inr g ↦ omega (arith, both, masks_high t (ltb→le t (k + e) g))
        ]
      ]

  small_mask : (n : ℕ) → n ≤ 64 → 2 ^ n - 1 < 2 ^ 64
  small_mask n le = omega (
    arith,
    pow-le-pow_right {n = 2} (omega arith) {i = n} {j = 64} le,
    one-le-pow n 2 (omega arith),
  )

  -- The loop ends where the number of the next bucket has no digits below those of the smaller table.
  pub stops :
      (b : ℕ)
      → (bit_and (rev (word (b * 2 ^ d))) (bit_xor (2 ^ k - 1) (2 ^ (k + e) - 1)) == 0)
        ≡ (b % 2 ^ e == 0)
  stops b =
      let w = rev (word (b * 2 ^ d)) in
      let x = bit_xor (2 ^ k - 1) (2 ^ (k + e) - 1) in
      let inside = bit_and-lt 64 w x (rev-lt (word (b * 2 ^ d)) (omega arith)) (
        bit_xor-lt 64 (2 ^ k - 1) (2 ^ (k + e) - 1) (small_mask k (omega arith))
          (small_mask (k + e) (omega arith))) in
      elim (Bool-cases (b % 2 ^ e == 0)) [
        | inl f ↦
            ≡→== (bit_and w x) 0 (
              digit-injective 64 (bit_and w x) 0 inside (omega arith)
                λ t lt. stays-digit b t (==→≡ (b % 2 ^ e) 0 f) ∙ sym (digit-zero t))
            ∙ sym f
        | inr f ↦
            ≢→== (bit_and w x) 0 (λ g. absurd (ground (arith, ≡→== (b % 2 ^ e) 0 (leaves b g))))
            ∙ sym f
      ]
