-- ===== src/Hash/Scan/Stretches.antt =====
-- Stretches of numbers, as the cursor of `Hash::scan` in src/hash.h walks over them: `width` numbers
-- for a bucket of the smaller table, and `small` of them for one of the larger.
use native.Mathlib.Nat.{
  div-lt_iff_lt-mul, le-div_iff_mul-le, div-mul-le_self, lt-div-mul-add, div-div-eq-div-mul,
  mul_assoc, mul_comm, add-mul, one-mul, mul-mod_left, div-add-mod', mul-le-mul_right,
}
use redis_db.Prelude.{
  ℕ, suc, ◌+◌, ◌*◌, ◌/◌, ◌%◌, ◌≤◌, ◌<◌, ◌≡◌, sym, ap, ◌∙◌, Bool, true, false, ◌&&◌, arith, leb, ltb,
  ◌==◌, ≡→==, ≢→==, to_nat,
}

-- Where the stretch of `x` begins.
abbrev pub start_of : (width x : ℕ) → ℕ
start_of width x = x / width * width

-- From `a` on, below `c`.
abbrev pub within : (a c x : ℕ) → Bool
within a c x = leb a x && ltb x c

pub within_one : (q : Bool) (a c x : ℕ) → c ≡ suc a → (q && (x == a)) ≡ (q && within a c x)
within_one q a c x e = ground arith

pub within_next :
    (q : Bool) (a c x : ℕ)
    → suc a ≤ c
    → to_nat (q && (x == a)) + to_nat (q && within (suc a) c x) ≡ to_nat (q && within a c x)
within_next q a c x le = ground arith

within_same :
    (a b low high p : ℕ)
    → (b ≤ a → low ≤ p)
    → (low ≤ p → b ≤ a)
    → (a < b + 1 → p < high)
    → (p < high → a < b + 1)
    → (a == b) ≡ within low high p
within_same a b low high p f g f' g' = ground arith

-- A wider stretch has more.
pub within-le :
    (q : Bool) (a c a' c' x x' : ℕ)
    → (a ≤ x → a' ≤ x')
    → (x < c → x' < c')
    → to_nat (q && within a c x) ≤ to_nat (q && within a' c' x')
within-le q a c a' c' x x' f g = ground arith

module _ (width : ℕ) (positive : 0 < width) where
  -- Numbers with the same quotient are those of one stretch.
  pub same_stretch :
      (x p : ℕ) → (p / width == x / width) ≡ within (start_of width x) (start_of width x + width) p
  same_stretch x p =
      let (below, above) = le-div_iff_mul-le {k = width} {x = x / width} {y = p} positive in
      let (under, over) = div-lt_iff_lt-mul {k = width} {x = p} {y = x / width + 1} positive in
      let next : (x / width + 1) * width ≡ start_of width x + width =
        omega (arith, add-mul (x / width) 1 width, one-mul width) in
      within_same (p / width) (x / width) (start_of width x) (start_of width x + width) p below
        above (λ l. omega (arith, under l, next)) (λ l. over (omega (arith, next)))

  pub start_of-le : (x : ℕ) → start_of width x ≤ x
  start_of-le x = div-mul-le_self x width

  pub start_of-lt : (x : ℕ) → x < start_of width x + width
  start_of-lt x = lt-div-mul-add positive

-- In stretches of `small` numbers: the end of the group of `several` that holds `x`.
abbrev pub stop_of : (small several x : ℕ) → ℕ
stop_of small several x = suc (x / small / several) * several

-- `several` stretches of `small` numbers make up one of `whole`.
module _ (small several whole : ℕ) (positive : 0 < small) (some_of : 0 < several)
    (e : whole ≡ small * several) where
  nested : (x : ℕ) → x / small / several ≡ x / whole
  nested x = div-div-eq-div-mul x small several ∙ ap (λ n. x / n) (sym e)

  regrouped : (n : ℕ) → n * several * small ≡ n * whole
  regrouped n = mul_assoc n several small ∙ ap (λ m. n * m) (mul_comm several small ∙ sym e)

  pub stop-end : (x : ℕ) → stop_of small several x * small ≡ start_of whole x + whole
  stop-end x =
      let one : suc (x / small / several) ≡ x / whole + 1 = omega (arith, nested x) in
      regrouped (suc (x / small / several))
      ∙ ap (λ n. n * whole) one
      ∙ omega (arith, add-mul (x / whole) 1 whole, one-mul whole)

  pub stop-multiple : (x : ℕ) → (stop_of small several x % several == 0) ≡ true
  stop-multiple x = ≡→== _ 0 (mul-mod_left (suc (x / small / several)) several)

  pub stop-above : (x : ℕ) → x / small < stop_of small several x
  stop-above x = omega (
    arith,
    start_of-lt several some_of (x / small),
    add-mul (x / small / several) 1 several,
    one-mul several,
    ap (λ n. n * several) (suc_one (x / small / several)),
  )
    where
      suc_one : (n : ℕ) → suc n ≡ n + 1
      suc_one n = omega arith

  pub stop-le : (x n : ℕ) → x / small < n * several → stop_of small several x ≤ n * several
  stop-le x n lt =
      mul-le-mul_right several
        (omega (arith, (div-lt_iff_lt-mul {k = several} {x = x / small} {y = n} some_of).1 lt))

  -- No stretch strictly inside begins with one of `whole`.
  pub stop-first :
      (x b : ℕ) → x / small < b → b < stop_of small several x → (b % several == 0) ≡ false
  stop-first x b above below = ≢→== (b % several) 0 λ z.
      let q = b / several in
      let h = x / small / several in
      let under = (div-lt_iff_lt-mul {k = several} {x = b} {y = suc h} some_of).1 below in
      absurd (
        omega (
          arith,
          div-add-mod' b several,
          mul-le-mul_right {m = q} {n = h} several (omega (arith, under)),
          div-mul-le_self (x / small) several,
        ))

  -- From `x` to the end of its stretch.
  pub ahead-le :
      (q : Bool) (x p : ℕ)
      → to_nat (q && within x (start_of whole x + whole) p)
        ≤ to_nat (q && within (x / small) (stop_of small several x) (p / small))
  ahead-le q x p =
      within-le q x (start_of whole x + whole) (x / small) (stop_of small several x) p (p / small)
        (λ le.
          (le-div_iff_mul-le {k = small} {x = x / small} {y = p} positive).1
            (omega (arith, div-mul-le_self x small)))
        (λ lt.
          (div-lt_iff_lt-mul {k = small} {x = p} {y = stop_of small several x} positive).1
            (omega (arith, stop-end x)))

  pub behind-le :
      (q : Bool) (x p : ℕ)
      → to_nat (q && within (x / small) (stop_of small several x) (p / small))
        ≤ to_nat (q && within (start_of whole x) (start_of whole x + whole) p)
  behind-le q x p =
      within-le q (x / small) (stop_of small several x) (start_of whole x)
        (start_of whole x + whole) (p / small) p
        (λ le. omega (
          arith,
          (le-div_iff_mul-le {k = small} {x = x / small} {y = p} positive).0 le,
          mul-le-mul_right {m = x / small / several * several} {n = x / small} small
              (div-mul-le_self (x / small) several),
          regrouped (x / small / several),
          ap (λ n. n * whole) (nested x),
        ))
        (λ lt. omega (
          arith,
          stop-end x,
          (div-lt_iff_lt-mul {k = small} {x = p} {y = stop_of small several x} positive).0 lt,
        ))
