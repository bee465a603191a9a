-- ===== src/Hash/Scan/Cursor.antt =====
-- src/hash.h, the cursor of `Hash::scan`: it counts in the digits of `rev`, where a bucket is a
-- stretch of numbers.
use native.Mathlib.Nat.{
  pow-suc, one-le-pow, mul_right_comm, add-mul, one-mul, div-lt_iff_lt-mul, mul-le-mul_right,
}
use redis_db.Prelude.{
  ℕ, zero, suc, ◌+◌, ◌-◌, ◌*◌, ◌/◌, ◌^◌, ◌≤◌, ◌<◌, ◌≡◌, sym, ap, ◌∙◌, arith, word, bit_and, bit_or,
  ltb, ltb→lt, ltb→le, ≢→==, ◌==◌, ==→≡, ≡→==, Bool-cases, inl, inr,
}
use redis_db.BitsOp.{complement, rev}
use redis_db.BitsOp.Digits.{
  digit, digit-lt, digit-zero, digit-injective, digit-bit_and, digit-bit_or, digit-high, digit-low,
  digit-complement, digit-right, bit_and-lt, bit_or-lt,
}
use redis_db.BitsOp.Reverses.{rev-digits, rev-lt}
use redis_db.Hash.Scan.{next_cursor}

pub pow_sum : (a b : ℕ) → 2 ^ (a + b) ≡ 2 ^ a * 2 ^ b
pow_sum zero b = let zeroth : zero + b ≡ b = omega arith in ap (λ n. 2 ^ n) zeroth ∙ omega arith
pow_sum (suc a) b =
    let next : suc a + b ≡ suc (a + b) = omega arith in
    let moved = mul_right_comm (2 ^ a) (2 ^ b) 2 in
    ap (λ n. 2 ^ n) next
    ∙ pow-suc 2 (a + b)
    ∙ ap (λ n. n * 2) (pow_sum a b)
    ∙ moved
    ∙ ap (λ n. n * 2 ^ b) (sym (pow-suc 2 a))

pub digit-mask-low : (k i : ℕ) → i < k → digit i (2 ^ k - 1) ≡ 1
digit-mask-low k i lt =
    let whole : 2 ^ k - 1 ≡ 2 ^ k - 1 - 0 = omega arith in
    let positive = one-le-pow k 2 (omega arith) in
    omega (arith, digit-complement k 0 i positive lt, digit-zero i, ap (digit i) whole)

pub digit-above : (k i v : ℕ) → v < 2 ^ k → k ≤ i → digit i v ≡ 0
digit-above k i v lt le =
    let at : i ≡ i - k + k = omega arith in
    let field : v ≡ 0 * 2 ^ k + v = omega arith in
    ap (λ j. digit j v) at
    ∙ ap (digit (i - k + k)) field
    ∙ digit-high k 0 v (i - k) lt
    ∙ digit-zero (i - k)

-- The bucket of a cursor among `2 ^ k`, in the order of the walk; `2 ^ d` numbers make up a bucket.
module _ (k d : ℕ) (e : k + d ≡ 64) where
  mask-lt : 2 ^ k - 1 < 2 ^ 64
  mask-lt = omega (
    arith,
    pow_sum k d,
    ap (λ n. 2 ^ n) e,
    one-le-pow k 2 (omega arith),
    mul-le-mul_right (2 ^ k) (one-le-pow d 2 (omega arith)),
  )

  pub powers : 2 ^ k * 2 ^ d ≡ 2 ^ 64
  powers = sym (pow_sum k d) ∙ ap (λ n. 2 ^ n) e

  pub quotient-lt : (v : ℕ) → v < 2 ^ 64 → v / 2 ^ d < 2 ^ k
  quotient-lt v lt =
      (div-lt_iff_lt-mul {x = v} {y = 2 ^ k} (one-le-pow d 2 (omega arith))).1
        (omega (arith, powers))

  -- The next bucket begins inside the word, or at its end.
  pub next_block-le : (v : ℕ) → v < 2 ^ 64 → (v / 2 ^ d + 1) * 2 ^ d ≤ 2 ^ 64
  next_block-le v lt = omega (
    arith,
    powers,
    mul-le-mul_right {m = v / 2 ^ d + 1} {n = 2 ^ k} (2 ^ d) (omega (arith, quotient-lt v lt)),
  )

  mask-high : (t : ℕ) → k ≤ t → digit t (2 ^ k - 1) ≡ 0
  mask-high t le = digit-above k t (2 ^ k - 1) (omega (arith, one-le-pow k 2 (omega arith))) le

  -- The digits of the complement of the mask.
  unmask : (t : ℕ) → t < 64 → digit t (complement (2 ^ k - 1)) + digit t (2 ^ k - 1) ≡ 1
  unmask t lt = digit-complement 64 (2 ^ k - 1) t mask-lt lt

  filled-digit :
      (v i : ℕ)
      → i < 64
      → digit i (rev (bit_or v (complement (2 ^ k - 1))))
        ≡ digit i (rev v / 2 ^ d * 2 ^ d + (2 ^ d - 1))
  filled-digit v i lt =
      let j = rev v / 2 ^ d in
      let t = 63 - i in
      let positive = one-le-pow d 2 (omega arith) in
      let inside : 2 ^ d - 1 < 2 ^ d = omega arith in
      let left =
        rev-digits (bit_or v (complement (2 ^ k - 1))) i lt
        ∙ digit-bit_or t v (complement (2 ^ k - 1)) in
      let other = unmask t (omega arith) in
      elim (Bool-cases (ltb i d)) [
        | inl f ↦
            let low = ltb→lt i d f in
            omega (
              arith,
              left,
              other,
              mask-high t (omega (arith, e)),
              digit-lt t v,
              digit-low d j (2 ^ d - 1) i inside low,
              digit-mask-low d i low,
            )
        | inr f ↦
            let high = ltb→le i d f in
            let at : i ≡ i - d + d = omega arith in
            omega (
              arith,
              left,
              other,
              digit-mask-low k t (omega (arith, e)),
              rev-digits v i lt,
              ap (λ x. digit x (j * 2 ^ d + (2 ^ d - 1))) at,
              ap (λ x. digit x (rev v)) at,
              digit-high d j (2 ^ d - 1) (i - d) inside,
              digit-right d (i - d) (rev v),
            )
      ]

  -- Setting the digits above the mask fills up the reversed number.
  filled :
      (v : ℕ)
      → v < 2 ^ 64
      → rev (bit_or v (complement (2 ^ k - 1))) ≡ rev v / 2 ^ d * 2 ^ d + (2 ^ d - 1)
  filled v lt =
      let other = complement (2 ^ k - 1) in
      let j = rev v / 2 ^ d in
      digit-injective 64 (rev (bit_or v other)) (j * 2 ^ d + (2 ^ d - 1))
        (rev-lt (bit_or v other) (bit_or-lt 64 v other lt (omega arith)))
        (omega (
          arith,
          next_block-le (rev v) (rev-lt v lt),
          add-mul j 1 (2 ^ d),
          one-mul (2 ^ d),
          one-le-pow d 2 (omega arith),
        ))
        (filled-digit v)

  -- The next cursor is that of the next bucket.
  pub next_cursor_lem :
      (v : ℕ) → v < 2 ^ 64 → next_cursor (2 ^ k - 1) v ≡ rev (word ((rev v / 2 ^ d + 1) * 2 ^ d))
  unfolding next_cursor
  next_cursor_lem v lt =
      let j = rev v / 2 ^ d in
      let whole : j * 2 ^ d + (2 ^ d - 1) + 1 ≡ (j + 1) * 2 ^ d =
        omega (arith, add-mul j 1 (2 ^ d), one-mul (2 ^ d), one-le-pow d 2 (omega arith)) in
      ap (λ n. rev (word (n + 1))) (filled v lt) ∙ ap (λ n. rev (word n)) whole

  -- The digits that the mask keeps are those that say the bucket.
  kept : (x t : ℕ) → t < k → digit t (bit_and x (2 ^ k - 1)) ≡ digit t x
  kept x t lt = omega (arith, digit-bit_and t x (2 ^ k - 1), digit-mask-low k t lt, digit-lt t x)

  block-digit : (x i : ℕ) → i < k → digit i (rev x / 2 ^ d) ≡ digit (63 - (i + d)) x
  block-digit x i lt = digit-right d i (rev x) ∙ rev-digits x (i + d) (omega (arith, e))

  home→block :
      (x v : ℕ)
      → x < 2 ^ 64
      → v < 2 ^ 64
      → bit_and x (2 ^ k - 1) ≡ bit_and v (2 ^ k - 1)
      → rev x / 2 ^ d ≡ rev v / 2 ^ d
  home→block x v lt lt' same =
      digit-injective k (rev x / 2 ^ d) (rev v / 2 ^ d) (quotient-lt (rev x) (rev-lt x lt))
        (quotient-lt (rev v) (rev-lt v lt'))
        λ i small.
          let t = 63 - (i + d) in
          block-digit x i small
          ∙ sym (kept x t (omega (arith, e)))
          ∙ ap (digit t) same
          ∙ kept v t (omega (arith, e))
          ∙ sym (block-digit v i small)

  block→home :
      (x v : ℕ)
      → x < 2 ^ 64
      → v < 2 ^ 64
      → rev x / 2 ^ d ≡ rev v / 2 ^ d
      → bit_and x (2 ^ k - 1) ≡ bit_and v (2 ^ k - 1)
  block→home x v lt lt' same =
      digit-injective 64 (bit_and x m) (bit_and v m) (bit_and-lt 64 x m lt mask-lt)
        (bit_and-lt 64 v m lt' mask-lt) digits_same
    where
      m : ℕ
      m = 2 ^ k - 1

      digits_same : (t : ℕ) → t < 64 → digit t (bit_and x m) ≡ digit t (bit_and v m)
      digits_same t small = elim (Bool-cases (ltb t k)) [
        | inl f ↦
            let low = ltb→lt t k f in
            let i = k - 1 - t in
            let at : t ≡ 63 - (i + d) = omega (arith, e) in
            kept x t low
            ∙ ap (λ j. digit j x) at
            ∙ sym (block-digit x i (omega arith))
            ∙ ap (digit i) same
            ∙ block-digit v i (omega arith)
            ∙ ap (λ j. digit j v) (sym at)
            ∙ sym (kept v t low)
        | inr f ↦
            let high = mask-high t (ltb→le t k f) in
            omega (arith, digit-bit_and t x m, digit-bit_and t v m, high)
      ]

  -- Two hashes are in the same bucket just when their reversals are in the same stretch.
  pub home-block :
      (x v : ℕ)
      → x < 2 ^ 64
      → v < 2 ^ 64
      → (bit_and x (2 ^ k - 1) == bit_and v (2 ^ k - 1)) ≡ (rev x / 2 ^ d == rev v / 2 ^ d)
  home-block x v lt lt' = elim (Bool-cases (bit_and x (2 ^ k - 1) == bit_and v (2 ^ k - 1))) [
    | inl f ↦ f ∙ sym (≡→== (rev x / 2 ^ d) (rev v / 2 ^ d) (home→block x v lt lt' (==→≡ _ _ f)))
    | inr f ↦
        f
        ∙ sym (
            ≢→== (rev x / 2 ^ d) (rev v / 2 ^ d)
              (λ g. absurd (ground (arith, ≡→== _ _ (block→home x v lt lt' g)))))
  ]
