-- ===== src/Hash/Scan/Whole.antt =====
-- src/hash.h, a whole walk of `Hash::scan` over a hash that does not change.
use native.Mathlib.Nat.{one-le-pow, mul-div_cancel, add-mul, one-mul, mul-le-mul_right}
use redis_db.Prelude.{
  ℕ, zero, suc, ◌+◌, ◌-◌, ◌*◌, ◌^◌, ◌≤◌, ◌<◌, ◌≡◌, ◌≢◌, refl, sym, ap, ◌∙◌, Bool, false, ◌&&◌, List,
  [], ◌∷◌, replicate, arith, word, ◌==◌, ≡→==, ≢→==, Bool-cases, inl, inr, count_if, to_nat, ok,
  Returns,
}
use redis_db.Traits.{Traits}
use redis_db.Table.Bags.{contents}
use redis_db.BitsOp.{rev}
use redis_db.BitsOp.Reverses.{rev-lt, rev-rev}
use redis_db.Hash.{Hash}
use redis_db.Hash.Valid.{IsResting, count, count-resting}
use redis_db.Hash.Advance.{Fits}
use redis_db.Hash.Scan.{scan_one, scan}
use redis_db.Hash.Scan.Emits.{scan-one, scan-empty, emits_none}
use redis_db.Hash.Scan.Cursor.{powers}
use redis_db.Hash.Scan.Blocks.{place, place-lt, count_if-sum}
use redis_db.Hash.Scan.Stretches.{start_of, within}
use redis_db.Hash.Scan.Covers.{scan_one-stretch, scan_one-cursor}
use redis_db.Hash.Scan.Calls.{pow-lt}
use redis_db.Hash.Scan.Guarantee.{scan_calls, rev_zero}

within_all : (q : Bool) (p high : ℕ) → p < high → (q && within 0 high p) ≡ q
within_all q p high lt = ground arith

within_both :
    (q : Bool) (low mid high p : ℕ)
    → low ≤ mid
    → mid ≤ high
    → to_nat (q && within low mid p) + to_nat (q && within mid high p)
      ≡ to_nat (q && within low high p)
within_both q low mid high p le le' = ground arith

module _ {ℓ} {T : Type ℓ} where
  -- A call that ends the walk, and one that does not.
  scan_calls-last :
      (h : Hash T) (hs : List (Hash T)) (v : ℕ) (values : List T) (r : ℕ × List T)
      → scan h v values ≡ ok r
      → r.0 ≡ 0
      → scan_calls (h ∷ hs) v values ≡ ok r
  unfolding scan_calls
  scan_calls-last h hs v values r run e = rw (run, ≡→== r.0 0 e) refl

  scan_calls-on :
      (h : Hash T) (hs : List (Hash T)) (v : ℕ) (values : List T) (r : ℕ × List T)
      → scan h v values ≡ ok r
      → r.0 ≢ 0
      → scan_calls (h ∷ hs) v values ≡ scan_calls hs r.0 r.1
  unfolding scan_calls
  scan_calls-on h hs v values r run ne = rw (run, ≢→== r.0 0 ne) refl

module _ {ℓ} {T K : Type ℓ} (traits : Traits T K) (k d : ℕ) (e : k + d ≡ 64) (h : Hash T)
    (r : IsResting traits h) (width : h.active.buckets_number ≡ 2 ^ k)
    (full : (h.active.size == 0) ≡ false) where
  -- The nodes of the places from `low` on, below `high`.
  abbrev between : (T → Bool) → (low high : ℕ) → ℕ
  between q low high = count (λ n. q n.value && within low high (place traits n)) h

  between-sum :
      (q : T → Bool) (low mid high : ℕ)
      → low ≤ mid
      → mid ≤ high
      → between q low mid + between q mid high ≡ between q low high
  between-sum q low mid high le le' = omega (
    arith,
    count-resting traits (λ n. q n.value && within low mid (place traits n)) r,
    count-resting traits (λ n. q n.value && within mid high (place traits n)) r,
    count-resting traits (λ n. q n.value && within low high (place traits n)) r,
    count_if-sum (λ n. q n.value && within low mid (place traits n)) _ _
        (λ n. within_both (q n.value) low mid high (place traits n) le le') (contents h.active),
  )

  next_multiple : (j : ℕ) → suc j * 2 ^ d ≡ j * 2 ^ d + 2 ^ d
  next_multiple j =
      let one : suc j ≡ j + 1 = omega arith in
      ap (λ n. n * 2 ^ d) one ∙ omega (arith, add-mul j 1 (2 ^ d), one-mul (2 ^ d))

  -- The call at the bucket `j` of the walk.
  module _ (j : ℕ) (values : List T) (lt : j < 2 ^ k) where
    multiple-le : suc j * 2 ^ d ≤ 2 ^ 64
    multiple-le = omega (arith, powers k d e, mul-le-mul_right {m = suc j} {n = 2 ^ k} (2 ^ d) lt)

    block-lt : j * 2 ^ d < 2 ^ 64
    block-lt = omega (arith, multiple-le, next_multiple j, one-le-pow d 2 (omega arith))

    cursor-lt : rev (j * 2 ^ d) < 2 ^ 64
    cursor-lt = rev-lt (j * 2 ^ d) block-lt

    starts : start_of (2 ^ d) (rev (rev (j * 2 ^ d))) ≡ j * 2 ^ d
    starts =
        ap (start_of (2 ^ d)) (rev-rev (j * 2 ^ d) block-lt)
        ∙ ap (λ n. n * 2 ^ d) (mul-div_cancel j (one-le-pow d 2 (omega arith)))

    ends : start_of (2 ^ d) (rev (rev (j * 2 ^ d))) + 2 ^ d ≡ suc j * 2 ^ d
    ends = omega (arith, starts, next_multiple j)

    call-cursor : (scan_one h.active (rev (j * 2 ^ d)) values).0 ≡ rev (word (suc j * 2 ^ d))
    call-cursor =
        scan_one-cursor traits k d e h r width (rev (j * 2 ^ d)) values cursor-lt
        ∙ ap (λ n. rev (word n)) ends

    call-values :
        (q : T → Bool)
        → count_if q (scan_one h.active (rev (j * 2 ^ d)) values).1
          ≡ count_if q values + between q (j * 2 ^ d) (suc j * 2 ^ d)
    call-values q =
        scan_one-stretch traits k d e h r width (rev (j * 2 ^ d)) values cursor-lt q
        ∙ ap
            (λ low.
              count_if q values + between q low (start_of (2 ^ d) (rev (rev (j * 2 ^ d))) + 2 ^ d))
            starts
        ∙ ap (λ high. count_if q values + between q (j * 2 ^ d) high) ends

  -- From the bucket `j` of the walk on, as many calls as there are buckets left.
  calls_from :
      (left j : ℕ) (values : List T)
      → j + suc left ≡ 2 ^ k
      → Returns (scan_calls (replicate (suc left) h) (rev (j * 2 ^ d)) values) λ s.
        (s.0 ≡ 0)
        × ((q : T → Bool) → count_if q s.1 ≡ count_if q values + between q (j * 2 ^ d) (2 ^ 64))
  unfolding replicate
  calls_from zero j values at =
      let v = rev (j * 2 ^ d) in
      let lt : j < 2 ^ k = omega (arith, at) in
      let last : suc j * 2 ^ d ≡ 2 ^ 64 =
        let all : suc j ≡ 2 ^ k = omega (arith, at) in ap (λ n. n * 2 ^ d) all ∙ powers k d e in
      let stop : (scan_one h.active v values).0 ≡ 0 =
        call-cursor j values lt ∙ ap (λ n. rev (word n)) last ∙ rev_zero in
      (
        scan_one h.active v values,
        scan_calls-last h [] v values _ (scan-one traits h v values r full) stop,
        (
          stop,
          λ q.
              call-values j values lt q
              ∙ ap (λ high. count_if q values + between q (j * 2 ^ d) high) last,
        ),
      )
  calls_from (suc left) j values at =
      let v = rev (j * 2 ^ d) in
      let lt : j < 2 ^ k = omega (arith, at) in
      let more : suc j < 2 ^ k = omega (arith, at) in
      let below = block-lt (suc j) values more in
      let same : word (suc j * 2 ^ d) ≡ suc j * 2 ^ d = omega (arith, below) in
      let cursor : (scan_one h.active v values).0 ≡ rev (suc j * 2 ^ d) =
        call-cursor j values lt ∙ ap rev same in
      let goes : (scan_one h.active v values).0 ≢ 0 = λ z. absurd (
        omega (
          arith,
          rev-rev (suc j * 2 ^ d) below,
          ap rev (sym cursor ∙ z),
          rev_zero,
          next_multiple j,
          one-le-pow d 2 (omega arith),
        )) in
      let (s, rest, (stop, counts)) =
        calls_from left (suc j) (scan_one h.active v values).1 (omega (arith, at)) in
      (
        s,
        scan_calls-on h _ v values _ (scan-one traits h v values r full) goes
            ∙ ap (λ w. scan_calls (replicate (suc left) h) w (scan_one h.active v values).1) cursor
            ∙ rest,
        (
          stop,
          λ q. omega (
            arith,
            counts q,
            call-values j values lt q,
            between-sum q (j * 2 ^ d) (suc j * 2 ^ d) (2 ^ 64) (omega (arith, next_multiple j))
                (omega (arith, below)),
          ),
        ),
      )

module _ {ℓ} {T K : Type ℓ} (traits : Traits T K) where
  scan_calls-full :
      (h : Hash T)
      → IsResting traits h
      → (h.active.size == 0) ≡ false
      → Returns
          (scan_calls (replicate h.active.buckets_number h) 0 [])
          λ s. (s.0 ≡ 0) × ((q : T → Bool) → count_if q s.1 ≡ count (λ n. q n.value) h)
  unfolding count_if
  scan_calls-full h r full =
      let (k, width, _) = r.home.power in
      let bound = pow-lt k 31 (omega (arith, width, r.home.small)) in
      let e : k + (64 - k) ≡ 64 = omega (arith, bound) in
      let left : 0 + suc (2 ^ k - 1) ≡ 2 ^ k = omega (arith, one-le-pow k 2 (omega arith)) in
      let number : suc (2 ^ k - 1) ≡ h.active.buckets_number = omega (arith, left, width) in
      let zeroth : 0 * 2 ^ (64 - k) ≡ 0 = omega arith in
      let start : rev (0 * 2 ^ (64 - k)) ≡ 0 = ap rev zeroth ∙ rev_zero in
      let (s, run, (stop, counts)) =
        calls_from traits k (64 - k) e h r width full (2 ^ k - 1) 0 [] left in
      (
        s,
        ap (λ n. scan_calls (replicate n h) 0 []) (sym number)
            ∙ ap (λ v. scan_calls (replicate (suc (2 ^ k - 1)) h) v []) (sym start)
            ∙ run,
        (stop, λ q. omega (arith, counts q, everywhere (0 * 2 ^ (64 - k)) q zeroth)),
      )
    where
      everywhere :
          (low : ℕ) (q : T → Bool)
          → low ≡ 0
          → count (λ n. q n.value && within low (2 ^ 64) (place traits n)) h
            ≡ count (λ n. q n.value) h
      everywhere low q e =
          ap (λ l. count (λ n. q n.value && within l (2 ^ 64) (place traits n)) h) e
          ∙ ap (λ p. count p h)
              (λ i n. within_all (q n.value) (place traits n) (2 ^ 64) (place-lt traits n) i)

  -- On a hash that does not change, with no rehash going on and at most 2 ^ 30 nodes: as many calls
  -- of `scan` as there are buckets, from the cursor 0 on and each with the cursor that the call
  -- before returned, are enough for the cursor to come back to 0, and until then they emit the
  -- value of every node just once.
  pub scan_calls-whole :
      (h : Hash T)
      → IsResting traits h
      → Fits h
      → Returns
          (scan_calls (replicate h.active.buckets_number h) 0 [])
          λ s. (s.0 ≡ 0) × ((q : T → Bool) → count_if q s.1 ≡ count (λ n. q n.value) h)
  unfolding count_if replicate
  scan_calls-whole h r fits = elim (Bool-cases (h.active.size == 0)) [
    | inr full ↦ scan_calls-full h r full
    | inl e ↦
        let one : h.active.buckets_number ≡ suc (h.active.buckets_number - 1) =
          omega (arith, r.home.power) in
        (
          (0, []),
          ap (λ n. scan_calls (replicate n h) 0 []) one
              ∙ scan_calls-last h _ 0 [] (0, []) (scan-empty traits h 0 [] e) refl,
          (refl, λ q. sym (emits_none traits h (λ n. q n.value) r fits e)),
        )
  ]
