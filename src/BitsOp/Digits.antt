-- ===== src/BitsOp/Digits.antt =====
-- The binary digits of a number, for src/Util.h and the cursors of `Hash::scan` in src/hash.h.
use Prim.Native.Nat.{bit_and-bitwise, bit_or-bitwise, bit_xor-bitwise, digits, differ}
use native.Mathlib.Nat.{pow-suc, one-le-pow}
use redis_db.Prelude.{
  ℕ, zero, suc, ◌+◌, ◌-◌, ◌*◌, ◌/◌, ◌%◌, ◌^◌, ◌≤◌, ◌<◌, min, max, ◌≡◌, refl, sym, ap, ◌∙◌, arith,
  word, double_field, bit_and, bit_or, bit_xor,
}

-- The digit of weight `2 ^ i`.
abbrev pub digit : (i v : ℕ) → ℕ
digit zero v = v % 2
digit (suc i) v = digit i (v / 2)

pub digit-lt : (i v : ℕ) → digit i v < 2
digit-lt zero v = omega arith
digit-lt (suc i) v = digit-lt i (v / 2)

pub digit-zero : (i : ℕ) → digit i 0 ≡ 0
digit-zero zero = refl
digit-zero (suc i) = digit-zero i

-- Numbers of `n` digits with the same digits are the same.
pub digit-injective :
    (n a b : ℕ) → a < 2 ^ n → b < 2 ^ n → ((i : ℕ) → i < n → digit i a ≡ digit i b) → a ≡ b
digit-injective zero a b le le' same = omega arith
digit-injective (suc n) a b le le' same =
    let halves =
      digit-injective n (a / 2) (b / 2) (omega (arith, pow-suc 2 n)) (omega (arith, pow-suc 2 n))
        (λ i lt. same (suc i) (omega arith)) in
    omega (arith, same 0 (omega arith), halves)

-- An operation on numbers that works digit by digit.
module _ (z : ℕ → ℕ) (f : ℕ → ℕ → ℕ) (short : (i b : ℕ) → digit i (z b) ≡ f 0 (digit i b))
    (binary : (x y : ℕ) → x < 2 → y < 2 → f x y < 2) where
  digit-digits : (n a b i : ℕ) → a ≤ n → digit i (digits z f n a b) ≡ f (digit i a) (digit i b)
  digit-digits zero zero b i le = short i b ∙ ap (λ x. f x (digit i b)) (sym (digit-zero i))
  digit-digits zero (suc a) b i le = absurd (omega arith)
  digit-digits (suc n) zero b i le = short i b ∙ ap (λ x. f x (digit i b)) (sym (digit-zero i))
  digit-digits (suc n) (suc a) b zero le =
      let two = binary (suc a % 2) (b % 2) (omega arith) (omega arith) in omega arith
  digit-digits (suc n) (suc a) b (suc i) le =
      let two = binary (suc a % 2) (b % 2) (omega arith) (omega arith) in
      let rest = digit-digits n (suc a / 2) (b / 2) i (omega arith) in
      let half : (digits z f n (suc a / 2) (b / 2) * 2 + f (suc a % 2) (b % 2)) / 2
          ≡ digits z f n (suc a / 2) (b / 2) =
        omega arith in
      ap (digit i) half ∙ rest

  digits-lt :
      (k n a b : ℕ)
      → f 0 0 ≡ 0
      → ((j c : ℕ) → c < 2 ^ j → z c < 2 ^ j)
      → a < 2 ^ k
      → b < 2 ^ k
      → digits z f n a b < 2 ^ k
  digits-lt k zero a b nothing small le le' = small k b le'
  digits-lt k (suc n) zero b nothing small le le' = small k b le'
  digits-lt zero (suc n) (suc a) b nothing small le le' = absurd (omega arith)
  digits-lt (suc k) (suc n) (suc a) b nothing small le le' =
      let two = binary (suc a % 2) (b % 2) (omega arith) (omega arith) in
      let rest =
        digits-lt k n (suc a / 2) (b / 2) nothing small (omega (arith, pow-suc 2 k))
          (omega (arith, pow-suc 2 k)) in
      omega (arith, pow-suc 2 k)

pub digit-bit_and : (i a b : ℕ) → digit i (bit_and a b) ≡ min (digit i a) (digit i b)
digit-bit_and i a b =
    ap (digit i) (bit_and-bitwise a b)
    ∙ digit-digits (λ _. 0) min (λ i b. digit-zero i ∙ omega arith) (λ x y lt lt'. omega arith) a a
        b i (omega arith)

pub digit-bit_or : (i a b : ℕ) → digit i (bit_or a b) ≡ max (digit i a) (digit i b)
digit-bit_or i a b =
    ap (digit i) (bit_or-bitwise a b)
    ∙ digit-digits (λ b. b) max (λ i b. omega arith) (λ x y lt lt'. omega arith) a a b i
        (omega arith)

field-half : (k q r : ℕ) → (q * 2 ^ suc k + r) / 2 ≡ q * 2 ^ k + r / 2
field-half k q r = omega (arith, double_field k q)

differ-lt : (x y : ℕ) → x < 2 → y < 2 → differ x y < 2
differ-lt zero y lt lt' = lt'
differ-lt (suc x) zero lt lt' = lt
differ-lt (suc zero) (suc y) lt lt' = omega arith
differ-lt (suc (suc x)) (suc y) lt lt' = absurd (omega arith)

pub digit-bit_xor : (i a b : ℕ) → digit i (bit_xor a b) ≡ differ (digit i a) (digit i b)
digit-bit_xor i a b =
    ap (digit i) (bit_xor-bitwise a b)
    ∙ digit-digits (λ b. b) differ (λ i b. refl) differ-lt a a b i (omega arith)

pub bit_xor-lt : (k a b : ℕ) → a < 2 ^ k → b < 2 ^ k → bit_xor a b < 2 ^ k
bit_xor-lt k a b le le' = omega (
  arith,
  bit_xor-bitwise a b,
  digits-lt (λ b. b) differ (λ i b. refl) differ-lt k a a b refl (λ j c lt. lt) le le',
)

pub bit_and-lt : (k a b : ℕ) → a < 2 ^ k → b < 2 ^ k → bit_and a b < 2 ^ k
bit_and-lt k a b le le' = omega (
  arith,
  bit_and-bitwise a b,
  digits-lt (λ _. 0) min (λ i b. digit-zero i ∙ omega arith) (λ x y lt lt'. omega arith) k a a b
      refl (λ j c lt. omega arith) le le',
)

pub bit_or-lt : (k a b : ℕ) → a < 2 ^ k → b < 2 ^ k → bit_or a b < 2 ^ k
bit_or-lt k a b le le' = omega (
  arith,
  bit_or-bitwise a b,
  digits-lt (λ b. b) max (λ i b. omega arith) (λ x y lt lt'. omega arith) k a a b refl
      (λ j c lt. lt) le le',
)

-- A number in two fields, the lower one of `k` digits.
pub digit-high : (k q r i : ℕ) → r < 2 ^ k → digit (i + k) (q * 2 ^ k + r) ≡ digit i q
digit-high zero q r i lt =
    let at : i + 0 ≡ i = omega arith in
    let whole : q * 2 ^ 0 + r ≡ q = omega arith in
    ap (λ j. digit j (q * 2 ^ 0 + r)) at ∙ ap (digit i) whole
digit-high (suc k) q r i lt =
    let at : i + suc k ≡ suc (i + k) = omega arith in
    ap (λ j. digit j (q * 2 ^ suc k + r)) at
    ∙ ap (digit (i + k)) (field-half k q r)
    ∙ digit-high k q (r / 2) i (omega (arith, pow-suc 2 k))

pub digit-low : (k q r i : ℕ) → r < 2 ^ k → i < k → digit i (q * 2 ^ k + r) ≡ digit i r
digit-low zero q r i lt lt' = absurd (omega arith)
digit-low (suc k) q r zero lt lt' = omega (arith, double_field k q)
digit-low (suc k) q r (suc i) lt lt' =
    ap (digit i) (field-half k q r)
    ∙ digit-low k q (r / 2) i (omega (arith, pow-suc 2 k)) (omega arith)

-- `2 ^ k - 1 - m` has the other digits.
pub digit-complement : (k m i : ℕ) → m < 2 ^ k → i < k → digit i (2 ^ k - 1 - m) + digit i m ≡ 1
digit-complement zero m i lt lt' = absurd (omega arith)
digit-complement (suc k) m zero lt lt' = omega (arith, pow-suc 2 k)
digit-complement (suc k) m (suc i) lt lt' =
    let half : (2 ^ suc k - 1 - m) / 2 ≡ 2 ^ k - 1 - m / 2 = omega (arith, pow-suc 2 k) in
    omega (
      arith,
      ap (digit i) half,
      digit-complement k (m / 2) i (omega (arith, pow-suc 2 k)) (omega arith),
    )

-- The shifts.
pub digit-right : (s i v : ℕ) → digit i (v / 2 ^ s) ≡ digit (i + s) v
digit-right s i v =
    let positive = one-le-pow s 2 in
    let whole : v / 2 ^ s * 2 ^ s + v % 2 ^ s ≡ v = ground arith in
    sym (digit-high s (v / 2 ^ s) (v % 2 ^ s) i (ground arith)) ∙ ap (digit (i + s)) whole

pub digit-word : (i v : ℕ) → i < 64 → digit i (word v) ≡ digit i v
digit-word i v lt =
    let whole : v / 2 ^ 64 * 2 ^ 64 + v % 2 ^ 64 ≡ v = omega arith in
    sym (digit-low 64 (v / 2 ^ 64) (v % 2 ^ 64) i (omega arith) lt) ∙ ap (digit i) whole

pub digit-left : (s i v : ℕ) → s ≤ i → digit i (v * 2 ^ s) ≡ digit (i - s) v
digit-left s i v le =
    let at : i ≡ i - s + s = omega arith in
    let padded : v * 2 ^ s ≡ v * 2 ^ s + 0 = omega arith in
    ap (λ j. digit j (v * 2 ^ s)) at
    ∙ ap (digit (i - s + s)) padded
    ∙ digit-high s v 0 (i - s) (one-le-pow s 2 (omega arith))

pub digit-below : (s i v : ℕ) → i < s → digit i (v * 2 ^ s) ≡ 0
digit-below s i v lt =
    let padded : v * 2 ^ s ≡ v * 2 ^ s + 0 = omega arith in
    ap (digit i) padded ∙ digit-low s v 0 i (one-le-pow s 2 (omega arith)) lt ∙ digit-zero i
