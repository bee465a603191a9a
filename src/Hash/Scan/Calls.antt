-- ===== src/Hash/Scan/Calls.antt =====
-- src/hash.h, what a call of `Hash::scan` at a valid hash does, a rehash going on or not.
use native.Mathlib.Nat.{one-le-pow, mul-div_cancel, pow-le-pow_right, pow-suc, mul_comm}
use redis_db.Prelude.{
  ℕ, suc, ◌+◌, ◌-◌, ◌/◌, ◌^◌, ◌≤◌, ◌<◌, min, ◌≡◌, refl, sym, ap, subst, ◌∙◌, Bool, true, false,
  Option, none, some, List, arith, ltb, ltb→lt, ltb→le, ◌==◌, Bool-cases, inl, inr, count_if,
  Returns,
}
use redis_db.Traits.{Traits}
use redis_db.Table.{HashNode, HashTable}
use redis_db.Table.Bags.{contents}
use redis_db.Hash.{Hash}
use redis_db.Hash.Valid.{IsHome, IsResting, IsMoving, IsValid, count, count-moving}
use redis_db.Hash.Advance.{moving-is_rehashing}
use redis_db.Hash.Scan.{scan_one, scan_both, scan}
use redis_db.Hash.Scan.Emits.{scan-one}
use redis_db.Hash.Scan.Cursor.{powers}
use redis_db.Hash.Scan.Covers.{CoversBy, scan_one-CoversBy}
use redis_db.Hash.Scan.Both.{scan_both-CoversBy}

pub pow-lt : (a b : ℕ) → 2 ^ a < 2 ^ b → a < b
pow-lt a b lt = elim (Bool-cases (ltb a b)) [
  | inl f ↦ ltb→lt a b f
  | inr f ↦
      absurd (omega (arith, pow-le-pow_right {n = 2} (omega arith) {i = b} {j = a} (ltb→le a b f)))
]

pub exponent-le : (a b : ℕ) → 2 ^ a ≤ 2 ^ b → a ≤ b
exponent-le a b le =
    omega (arith, pow-lt a (suc b) (omega (arith, pow-suc 2 b, one-le-pow b 2 (omega arith))))

quotient : (k d : ℕ) → k + d ≡ 64 → 2 ^ 64 / 2 ^ k ≡ 2 ^ d
quotient k d e =
    ap (λ n. n / 2 ^ k) (sym (powers k d e) ∙ mul_comm (2 ^ k) (2 ^ d))
    ∙ mul-div_cancel (2 ^ d) (one-le-pow k 2 (omega arith))

module _ {ℓ} {T : Type ℓ} where
  abbrev fewer : ℕ → Option (HashTable T) → ℕ
  fewer n none = n
  fewer n (some b) = min n b.buckets_number

  -- How many places of the walk make up a bucket of the table with the fewer buckets.
  abbrev pub stretch : Hash T → ℕ
  stretch h = 2 ^ 64 / fewer h.active.buckets_number h.backup

module _ {ℓ} {T K : Type ℓ} (traits : Traits T K) where
  abbrev pub Covers : Hash T → ℕ → List T → ℕ × List T → Type ℓ
  Covers h v values r = CoversBy traits (stretch h) h v values r

  stretch-resting :
      (k d : ℕ)
      → k + d ≡ 64
      → (h : Hash T) → IsResting traits h
      → h.active.buckets_number ≡ 2 ^ k
      → stretch h ≡ 2 ^ d
  stretch-resting k d e h r width = rw (r.single, width) (quotient k d e)

  scan-resting :
      (h : Hash T) (v : ℕ) (values : List T)
      → IsResting traits h
      → (h.active.size == 0) ≡ false
      → v < 2 ^ 64
      → Returns (scan h v values) (Covers h v values)
  scan-resting h v values r full lt =
      let (k, width, four) = r.home.power in
      let small = r.home.small in
      let bound = pow-lt k 31 (omega (arith, width)) in
      let e : k + (64 - k) ≡ 64 = omega (arith, bound) in
      (
        _,
        scan-one traits h v values r full,
        subst (λ w. CoversBy traits w h v values (scan_one h.active v values))
            (sym (stretch-resting k (64 - k) e h r width))
            (scan_one-CoversBy traits k (64 - k) e h r width v values lt),
      )

  -- Of two tables, the one with the fewer buckets first.
  smaller_first :
      (h : Hash T) (v : ℕ) (values : List T) (t₀ t₁ : HashTable T)
      → IsHome traits t₀
      → IsHome traits t₁
      → t₀.buckets_number ≤ t₁.buckets_number
      → fewer h.active.buckets_number h.backup ≡ t₀.buckets_number
      → ((p : HashNode T → Bool) → count p h ≡ count_if p (contents t₀) + count_if p (contents t₁))
      → v < 2 ^ 64
      → Returns (scan_both t₀ t₁ v values) (Covers h v values)
  smaller_first h v values t₀ t₁ home₀ home₁ le fewest parts lt =
      let (k, width₀, _) = home₀.power in
      let (l, width₁, _) = home₁.power in
      let small = home₁.small in
      let order = exponent-le k l (omega (arith, width₀, width₁)) in
      let bound = pow-lt l 31 (omega (arith, width₁)) in
      let e = l - k in
      let d = 64 - l in
      let wider : k + e ≡ l = omega (arith, order) in
      let whole : k + e + d ≡ 64 = omega (arith, order, bound) in
      let places : stretch h ≡ 2 ^ (d + e) =
        ap (λ n. 2 ^ 64 / n) (fewest ∙ width₀) ∙ quotient k (d + e) (omega (arith, whole)) in
      subst (λ w. Returns (scan_both t₀ t₁ v values) (CoversBy traits w h v values)) (sym places)
        (scan_both-CoversBy traits k e d whole t₀ t₁ home₀ home₁ width₀
          (width₁ ∙ ap (λ n. 2 ^ n) (sym wider)) h v values parts lt)

  module _ (h : Hash T) (v : ℕ) (values : List T) (b : HashTable T) (m : IsMoving traits h b)
      (goes : h.rehash_index < h.active.buckets_number) (full : (h.active.size == 0) ≡ false) where
    scan-larger :
        ltb b.buckets_number h.active.buckets_number ≡ true
        → scan h v values ≡ scan_both b h.active v values
    unfolding scan
    scan-larger f = rw (full, moving-is_rehashing traits m goes, m.backup, f) refl

    scan-smaller :
        ltb b.buckets_number h.active.buckets_number ≡ false
        → scan h v values ≡ scan_both h.active b v values
    unfolding scan
    scan-smaller f = rw (full, moving-is_rehashing traits m goes, m.backup, f) refl

    scan-moving : v < 2 ^ 64 → Returns (scan h v values) (Covers h v values)
    scan-moving lt =
        let a = h.active.buckets_number in
        let fewest : fewer a h.backup ≡ min a b.buckets_number = rw m.backup refl in
        elim (Bool-cases (ltb b.buckets_number a)) [
          | inl f ↦
              let below = ltb→lt b.buckets_number a f in
              subst (λ o. Returns o (Covers h v values)) (sym (scan-larger f))
                (smaller_first h v values b h.active m.new_home m.home (omega (arith, below))
                  (omega (arith, fewest, below)) (λ p. omega (arith, count-moving traits p m)) lt)
          | inr f ↦
              let below = ltb→le b.buckets_number a f in
              subst (λ o. Returns o (Covers h v values)) (sym (scan-smaller f))
                (smaller_first h v values h.active b m.home m.new_home below
                  (omega (arith, fewest, below)) (λ p. count-moving traits p m) lt)
        ]

  -- A stretch is a power of two.
  pub stretch-power : (h : Hash T) → IsValid traits h → (d : ℕ) × (stretch h ≡ 2 ^ d) × (d ≤ 64)
  stretch-power h (inl r) =
      let (k, width, _) = r.home.power in
      let bound = pow-lt k 31 (omega (arith, width, r.home.small)) in
      (64 - k, stretch-resting k (64 - k) (omega (arith, bound)) h r width, omega arith)
  stretch-power h (inr (b, m, _)) =
      let (k, old, _) = m.home.power in
      let (l, new, _) = m.new_home.power in
      let small = pow-lt k 31 (omega (arith, old, m.home.small)) in
      let small' = pow-lt l 31 (omega (arith, new, m.new_home.small)) in
      let a = h.active.buckets_number in
      let fewest : fewer a h.backup ≡ min a b.buckets_number = rw m.backup refl in
      elim (Bool-cases (ltb b.buckets_number a)) [
        | inl f ↦
            let below = ltb→lt b.buckets_number a f in
            let least : fewer a h.backup ≡ 2 ^ l = omega (arith, fewest, below, new) in
            (
              64 - l,
              ap (λ n. 2 ^ 64 / n) least ∙ quotient l (64 - l) (omega (arith, small')),
              omega arith,
            )
        | inr f ↦
            let below = ltb→le b.buckets_number a f in
            let least : fewer a h.backup ≡ 2 ^ k = omega (arith, fewest, below, old) in
            (
              64 - k,
              ap (λ n. 2 ^ 64 / n) least ∙ quotient k (64 - k) (omega (arith, small)),
              omega arith,
            )
      ]

  -- At a valid hash whose active table is not empty, a rehash going on or not, and with a cursor
  -- below 2 ^ 64, a call of `scan` runs to an end. In the order of the walk, it goes on with the
  -- place at which the next stretch begins, where a stretch is a bucket of the table with the fewer
  -- buckets. It emits the value of every node from the place of the cursor to the end of its
  -- stretch, and of no node outside the stretch.
  pub scan-Covers :
      (h : Hash T) (v : ℕ) (values : List T)
      → IsValid traits h
      → (h.active.size == 0) ≡ false
      → v < 2 ^ 64
      → Returns (scan h v values) (Covers h v values)
  scan-Covers h v values (inl r) full lt = scan-resting h v values r full lt
  scan-Covers h v values (inr (b, m, goes)) full lt = scan-moving h v values b m goes full lt
