-- ===== src/BitsOp/Reverses.antt =====
-- src/Util.h, `BitsOp::rev` reverses the digits.
use redis_db.Prelude.{
  ℕ, zero, suc, ◌+◌, ◌-◌, ◌*◌, ◌/◌, ◌^◌, ◌≤◌, ◌<◌, ◌≡◌, refl, ap, ◌∙◌, Bool, true, false, ◌&&◌,
  ◌||◌, arith, word, bit_and, bit_or, ltb, leb, ◌==◌, ==→≡, if◌then◌else◌, Bool-cases, inl, inr,
}
use redis_db.BitsOp.{complement, rev, rev_loop}
use redis_db.BitsOp.Digits.{
  digit, digit-lt, digit-injective, digit-bit_and, digit-bit_or, digit-right, digit-word,
  digit-left, bit_and-lt, bit_or-lt,
}

-- One round: neighbouring fields of `s` digits change places, the mask has the lower ones.
abbrev swap_fields : (s mask v : ℕ) → ℕ
swap_fields s mask v =
    bit_or (bit_and (v / 2 ^ s) mask) (bit_and (word (v * 2 ^ s)) (complement mask))

-- The place from which the digit `i` comes.
abbrev from : (s mask i : ℕ) → ℕ
from s mask i = if digit i mask == 1 then i + s else i - s

-- Whether a test holds of all numbers below `n`.
abbrev every : (n : ℕ) → (ℕ → Bool) → Bool
every zero test = true
every (suc n) test = test n && every n test

every-at : (n : ℕ) (test : ℕ → Bool) (i : ℕ) → every n test ≡ true → i < n → test i ≡ true
every-at zero test i e lt = absurd (omega arith)
every-at (suc n) test i e lt = elim (Bool-cases (i == n)) [
  | inl f ↦ ap test (==→≡ i n f) ∙ ground arith
  | inr f ↦ every-at n test i (ground arith) (ground arith)
]

-- The mask has, of each digit, the opposite in its complement, and the digits that move up come from
-- inside the word.
abbrev fits : (s mask i : ℕ) → Bool
fits s mask i =
    ltb (from s mask i) 64
    && ((digit i mask == 1 && digit i (complement mask) == 0)
        || (digit i mask == 0 && (digit i (complement mask) == 1 && leb s i)))

fits_up :
    (a b s i : ℕ) (t : Bool)
    → (t && ((a == 1 && b == 0) || (a == 0 && (b == 1 && leb s i)))) ≡ true
    → (a == 1) ≡ true
    → (a ≡ 1) × (b ≡ 0)
fits_up a b s i t e f = ground arith

fits_down :
    (a b s i : ℕ) (t : Bool)
    → (t && ((a == 1 && b == 0) || (a == 0 && (b == 1 && leb s i)))) ≡ true
    → (a == 1) ≡ false
    → (a ≡ 0) × (b ≡ 1) × (s ≤ i)
fits_down a b s i t e f = ground arith

digit-swap_fields :
    (s mask v i : ℕ)
    → every 64 (fits s mask) ≡ true
    → i < 64
    → digit i (swap_fields s mask v) ≡ digit (from s mask i) v
digit-swap_fields s mask v i e lt =
    let right = v / 2 ^ s in
    let left = word (v * 2 ^ s) in
    let ok = every-at 64 (fits s mask) i e lt in
    let both = digit-bit_or i (bit_and right mask) (bit_and left (complement mask)) in
    let one = digit-bit_and i right mask in
    let other = digit-bit_and i left (complement mask) in
    elim (Bool-cases (digit i mask == 1)) [
      | inl f ↦
          let place = ap (λ c. digit (if c then i + s else i - s) v) f in
          let up =
            fits_up (digit i mask) (digit i (complement mask)) s i (ltb (from s mask i) 64) ok f in
          omega (arith, both, one, other, place, up.0, up.1, digit-right s i v, digit-lt (i + s) v)
      | inr f ↦
          let place = ap (λ c. digit (if c then i + s else i - s) v) f in
          let down =
            fits_down (digit i mask) (digit i (complement mask)) s i (ltb (from s mask i) 64) ok
              f in
          omega (
            arith,
            both,
            one,
            other,
            place,
            down.0,
            down.1,
            digit-word i (v * 2 ^ s) lt,
            digit-left s i v down.2,
            digit-lt (i - s) v,
          )
    ]

-- The masks of the six rounds.
abbrev low_fields : (s : ℕ) → ℕ
low_fields s = (2 ^ 64 - 1) / (2 ^ s + 1)

rev-rounds :
    (v : ℕ)
    → rev v
      ≡ swap_fields 1 (low_fields 1) (
          swap_fields 2 (low_fields 2) (
            swap_fields 4 (low_fields 4) (
              swap_fields 8
                (low_fields 8)
                (swap_fields 16 (low_fields 16) (swap_fields 32 (low_fields 32) v)))))
unfolding rev rev_loop
rev-rounds v = refl

-- Where the digit `i` comes from through the six rounds.
abbrev source_of : ℕ → ℕ
source_of i = from 32 (low_fields 32) (
    from 16 (low_fields 16) (
      from 8 (low_fields 8)
        (from 4 (low_fields 4) (from 2 (low_fields 2) (from 1 (low_fields 1) i)))))

rounds_fit :
    (every 64 (fits 1 (low_fields 1)) ≡ true)
    × (every 64 (fits 2 (low_fields 2)) ≡ true)
    × (every 64 (fits 4 (low_fields 4)) ≡ true)
    × (every 64 (fits 8 (low_fields 8)) ≡ true)
    × (every 64 (fits 16 (low_fields 16)) ≡ true)
    × (every 64 (fits 32 (low_fields 32)) ≡ true)
rounds_fit = (refl, refl, refl, refl, refl, refl)

mirrored : every 64 (λ i. source_of i == 63 - i) ≡ true
mirrored = refl

round :
    (s v i : ℕ)
    → every 64 (fits s (low_fields s)) ≡ true
    → i < 64
    → (digit i (swap_fields s (low_fields s) v) ≡ digit (from s (low_fields s) i) v)
      × (from s (low_fields s) i < 64)
round s v i e lt =
    let inside =
      fits_inside (from s (low_fields s) i) _ (every-at 64 (fits s (low_fields s)) i e lt) in
    (digit-swap_fields s (low_fields s) v i e lt, inside)
  where
    fits_inside : (n : ℕ) (t : Bool) → (ltb n 64 && t) ≡ true → n < 64
    fits_inside n t e = ground arith

-- For every number, the digit `i` of `rev(v)`, below 64, is the digit `63 - i` of `v`.
pub rev-digits : (v i : ℕ) → i < 64 → digit i (rev v) ≡ digit (63 - i) v
rev-digits v i lt =
    let v5 = swap_fields 32 (low_fields 32) v in
    let v4 = swap_fields 16 (low_fields 16) v5 in
    let v3 = swap_fields 8 (low_fields 8) v4 in
    let v2 = swap_fields 4 (low_fields 4) v3 in
    let v1 = swap_fields 2 (low_fields 2) v2 in
    let (e1, e2, e3, e4, e5, e6) = rounds_fit in
    let (d1, l1) = round 1 v1 i e1 lt in
    let (d2, l2) = round 2 v2 _ e2 l1 in
    let (d3, l3) = round 4 v3 _ e3 l2 in
    let (d4, l4) = round 8 v4 _ e4 l3 in
    let (d5, l5) = round 16 v5 _ e5 l4 in
    let (d6, l6) = round 32 v _ e6 l5 in
    ap (digit i) (rev-rounds v)
    ∙ d1
    ∙ d2
    ∙ d3
    ∙ d4
    ∙ d5
    ∙ d6
    ∙ ap (λ j. digit j v)
        (==→≡ (source_of i) (63 - i) (every-at 64 (λ i. source_of i == 63 - i) i mirrored lt))

swap_fields-lt : (s mask v : ℕ) → mask < 2 ^ 64 → v < 2 ^ 64 → swap_fields s mask v < 2 ^ 64
swap_fields-lt s mask v lt lt' =
    bit_or-lt 64 (bit_and (v / 2 ^ s) mask) (bit_and (word (v * 2 ^ s)) (complement mask))
      (bit_and-lt 64 (v / 2 ^ s) mask (quotient-lt v (2 ^ s) lt') lt)
      (bit_and-lt 64 (word (v * 2 ^ s)) (complement mask) (omega arith) (omega arith))
  where
    quotient-lt : (v d : ℕ) → v < 2 ^ 64 → v / d < 2 ^ 64
    quotient-lt v d lt = ground arith

pub rev-lt : (v : ℕ) → v < 2 ^ 64 → rev v < 2 ^ 64
rev-lt v lt = rw (rev-rounds v) (
    swap_fields-lt 1 (low_fields 1) _ (omega arith) (
      swap_fields-lt 2 (low_fields 2) _ (omega arith) (
        swap_fields-lt 4 (low_fields 4) _ (omega arith) (
          swap_fields-lt 8 (low_fields 8) _ (omega arith) (
            swap_fields-lt 16 (low_fields 16) _ (omega arith)
              (swap_fields-lt 32 (low_fields 32) v (omega arith) lt))))))

-- `rev` undoes itself on the numbers of 64 digits.
pub rev-rev : (v : ℕ) → v < 2 ^ 64 → rev (rev v) ≡ v
rev-rev v lt = digit-injective 64 (rev (rev v)) v (rev-lt (rev v) (rev-lt v lt)) lt λ i small.
    let back : 63 - (63 - i) ≡ i = omega arith in
    rev-digits (rev v) i small ∙ rev-digits v (63 - i) (omega arith) ∙ ap (λ j. digit j v) back
