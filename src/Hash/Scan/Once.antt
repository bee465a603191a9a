-- ===== src/Hash/Scan/Once.antt =====
-- src/hash.h, `Hash::scan` called again and again while the hash grows: it doubles no key.
use native.Mathlib.Nat.{one-le-pow, mul-div_cancel, mul_assoc, add-mul, one-mul}
use redis_db.Prelude.{
  ℕ, ◌+◌, ◌-◌, ◌*◌, ◌/◌, ◌^◌, ◌≤◌, ◌<◌, ◌≡◌, ◌≢◌, ◌⊎◌, refl, sym, ap, subst, ◌∙◌, false, ◌&&◌, List,
  [], ◌∷◌, arith, word, ltb, ltb→lt, ltb→le, ◌==◌, ≡→==, Bool-cases, inl, inr, count_if, All,
  ok-injective, Returns, and-le,
}
use redis_db.Traits.{Traits, has_key}
use redis_db.Table.{HashNode}
use redis_db.Table.Chains.{holds_key}
use redis_db.BitsOp.{rev}
use redis_db.BitsOp.Reverses.{rev-lt, rev-rev}
use redis_db.Hash.{Hash}
use redis_db.Hash.Valid.{count, count-le, count-split}
use redis_db.Hash.Scan.Cursor.{pow_sum, next_block-le}
use redis_db.Hash.Scan.Blocks.{place}
use redis_db.Hash.Scan.Stretches.{start_of, within}
use redis_db.Hash.Scan.Calls.{stretch, Covers, scan-Covers, exponent-le, stretch-power}
use redis_db.Hash.Scan.Guarantee.{
  scan_calls, Keeps, place_of, Covers-lt, rev_zero, scan_calls-meets,
}

-- The cursor of the next stretch, if it is not 0.
next_place :
    (c v w : ℕ)
    → c ≤ 64
    → v < 2 ^ 64
    → w ≡ rev (word (start_of (2 ^ c) (rev v) + 2 ^ c))
    → w ≢ 0
    → rev w ≡ (rev v / 2 ^ c + 1) * 2 ^ c
next_place c v w le lt e ne =
    let high = (rev v / 2 ^ c + 1) * 2 ^ c in
    let whole : 64 - c + c ≡ 64 = omega (arith, le) in
    let ends : start_of (2 ^ c) (rev v) + 2 ^ c ≡ high =
      omega (arith, add-mul (rev v / 2 ^ c) 1 (2 ^ c), one-mul (2 ^ c)) in
    let bound = next_block-le (64 - c) c whole (rev v) (rev-lt v lt) in
    let at : w ≡ rev (word high) = e ∙ ap (λ n. rev (word n)) ends in
    elim (Bool-cases (ltb high (2 ^ 64))) [
      | inl f ↦
          let small = ltb→lt high (2 ^ 64) f in
          let same : word high ≡ high = omega (arith, small) in
          ap rev at ∙ rev-rev (word high) (omega arith) ∙ same
      | inr f ↦
          let full : high ≡ 2 ^ 64 = omega (arith, bound, ltb→le high (2 ^ 64) f) in
          absurd (ne (at ∙ ap (λ n. rev (word n)) full ∙ rev_zero))
    ]

within_not : (low high p : ℕ) → (p < low) ⊎ (high ≤ p) → within low high p ≡ false
within_not low high p (inl lt) = ground arith
within_not low high p (inr le) = ground arith

-- A multiple of a power of two is one of any lower power.
aligned : (d c m : ℕ) → c ≤ d → start_of (2 ^ c) (m * 2 ^ d) ≡ m * 2 ^ d
aligned d c m le =
    let parts : d - c + c ≡ d = omega arith in
    let same : m * 2 ^ d ≡ m * 2 ^ (d - c) * 2 ^ c =
      ap (λ n. m * 2 ^ n) (sym parts)
      ∙ ap (λ n. m * n) (pow_sum (d - c) c)
      ∙ sym (mul_assoc m (2 ^ (d - c)) (2 ^ c)) in
    ap (start_of (2 ^ c)) same
    ∙ ap (λ n. n * 2 ^ c) (mul-div_cancel (m * 2 ^ (d - c)) (one-le-pow c 2 (omega arith)))
    ∙ sym same

module _ {ℓ} {T K : Type ℓ} (traits : Traits T K) where
  open traits use {get_key, hasher}

  -- No stretch is wider than the one before: the table with the fewer buckets has never fewer.
  abbrev pub Narrows : ℕ → List (Hash T) → Type 0
  Narrows w [] = Unit
  Narrows w (h ∷ hs) = (stretch h ≤ w) × Narrows (stretch h) hs

  -- The hash has the key, just once.
  abbrev pub KeepsOne : K → Hash T → Type ℓ
  KeepsOne k h = Keeps traits k h × (count (holds_key traits k) h ≤ 1)

  -- At most one value under the key so far, and none before the cursor comes to it.
  abbrev IsFresh : K → ℕ → List T → Type 0
  IsFresh k v values =
      (count_if (has_key traits k) values ≤ 1)
      × (rev v ≤ place_of traits k → count_if (has_key traits k) values ≡ 0)

  none_of : (h : Hash T) → count (λ n. false) h ≡ 0
  none_of h = omega (arith, count-split (λ n. false) (λ n. false) h)

  outside :
      (k : K) (low high : ℕ) (h : Hash T)
      → (place_of traits k < low) ⊎ (high ≤ place_of traits k)
      → count (λ n. has_key traits k n.value && within low high (place traits n)) h ≡ 0
  outside k low high h away = ap (λ p. count p h) (λ i n. none n i) ∙ none_of h
    where
      none :
          (n : HashNode T) → (has_key traits k n.value && within low high (place traits n)) ≡ false
      none n = elim (Bool-cases (has_key traits k n.value)) [
        | inr f ↦ rw f refl
        | inl f ↦ rw f (
            subst (λ a. within low high (rev (word (hasher a))) ≡ false)
              (sym ((traits.equal_iff (get_key n.value) k).0 f))
              (within_not low high (place_of traits k) away))
      ]

  call-IsFresh :
      (k : K) (h : Hash T) (v : ℕ) (values : List T) (r : ℕ × List T)
      → count (holds_key traits k) h ≤ 1
      → Covers traits h v values r
      → start_of (stretch h) (rev v) ≡ rev v
      → IsFresh k v values
      → (count_if (has_key traits k) r.1 ≤ 1)
        × (rev v + stretch h ≤ place_of traits k → count_if (has_key traits k) r.1 ≡ 0)
  call-IsFresh k h v values r one covers at (single, before) =
      let low = start_of (stretch h) (rev v) in
      let high = low + stretch h in
      let p = place_of traits k in
      let most = covers.at_most (has_key traits k) in
      let less =
        count-le (λ n. has_key traits k n.value && within low high (place traits n))
          (holds_key traits k) (λ n. and-le (has_key traits k n.value) _) h in
      elim (Bool-cases (ltb p low)) [
        | inl f ↦
            let under = ltb→lt p low f in
            let nothing = outside k low high h (inl under) in
            (omega (arith, single, most, nothing), λ le. absurd (omega (arith, at, under)))
        | inr f ↦
            let over = ltb→le p low f in
            let unseen = before (omega (arith, at, over)) in
            (
              omega (arith, most, less, one, unseen),
              λ le. omega (arith, most, unseen, outside k low high h (inr (omega (arith, at, le)))),
            )
      ]

  calls_once :
      (k : K) (hs : List (Hash T)) (v m d : ℕ) (values : List T)
      → All (KeepsOne k) hs
      → Narrows (2 ^ d) hs
      → v < 2 ^ 64
      → rev v ≡ m * 2 ^ d
      → IsFresh k v values
      → Returns (scan_calls hs v values) λ r. count_if (has_key traits k) r.1 ≤ 1
  unfolding scan_calls
  calls_once k [] v m d values keeps narrow lt at fresh = ((v, values), refl, fresh.0)
  calls_once k (h ∷ hs) v m d values keeps narrow lt at fresh =
      let (keep, one) = keeps.0 in
      let (c, power, small) = stretch-power traits h keep.valid in
      let (r, run, covers) = scan-Covers traits h v values keep.valid keep.full lt in
      let le : c ≤ d = exponent-le c d (omega (arith, power, narrow.0)) in
      let starts : start_of (stretch h) (rev v) ≡ rev v =
        ap (λ w. start_of w (rev v)) power ∙ ap (start_of (2 ^ c)) at ∙ aligned d c m le ∙ sym at in
      let (single, before) = call-IsFresh k h v values r one covers starts fresh in
      let cursor = covers.cursor ∙ ap (λ w. rev (word (start_of w (rev v) + w))) power in
      elim (Bool-cases (r.0 == 0)) [
        | inl f ↦ (r, rw (run, f) refl, single)
        | inr f ↦
            let next = next_place c v r.0 small lt cursor (λ z. absurd (cc (f, ≡→== r.0 0 z))) in
            let high : (rev v / 2 ^ c + 1) * 2 ^ c ≡ rev v + stretch h = omega (
              arith,
              add-mul (rev v / 2 ^ c) 1 (2 ^ c),
              one-mul (2 ^ c),
              power,
              ap (λ w. start_of w (rev v)) (sym power) ∙ starts,
            ) in
            let (s, rest, found) =
              calls_once k hs r.0 (rev v / 2 ^ c + 1) c r.1 keeps.1
                (subst (λ w. Narrows w hs) power narrow.1) (Covers-lt traits covers) next
                (single, λ below. before (omega (arith, below, next, high))) in
            (s, rw (run, f) rest, found)
      ]

  All-Keeps : (k : K) (hs : List (Hash T)) → All (KeepsOne k) hs → All (Keeps traits k) hs
  All-Keeps k [] keeps = tt
  All-Keeps k (h ∷ hs) keeps = (keeps.0.0, All-Keeps k hs keeps.1)

  -- Calls of `scan` from the cursor 0 on, each with the cursor that the call before returned, at
  -- states of a hash that does not shrink: the table with the fewer buckets never has fewer than in
  -- the state before, while rehashes may begin, go on and end. As long as a key is in the hash just once at each of them, each of them is valid, and
  -- its active table is not empty, all of the calls run to an end, at most one value under the key
  -- is emitted, and if the cursor comes back to 0, just one.
  pub scan_calls-once :
      (k : K) (h : Hash T) (hs : List (Hash T))
      → All (KeepsOne k) (h ∷ hs)
      → Narrows (stretch h) hs
      → Returns (scan_calls (h ∷ hs) 0 []) λ r.
        (count_if (has_key traits k) r.1 ≤ 1) × (r.0 ≡ 0 → count_if (has_key traits k) r.1 ≡ 1)
  unfolding count_if
  scan_calls-once k h hs keeps narrow =
      let (d, power, _) = stretch-power traits h keeps.0.0.valid in
      let (r, run, most) =
        calls_once k (h ∷ hs) 0 0 d [] keeps (omega (arith, power), narrow) (omega arith)
          (omega (arith, rev_zero)) (omega arith, λ le. refl) in
      let (s, run', least) = scan_calls-meets traits k h hs (All-Keeps k (h ∷ hs) keeps) in
      let same : s ≡ r = ok-injective (sym run' ∙ run) in
      let enough =
        subst (λ (t : ℕ × List T). t.0 ≡ 0 → 1 ≤ count_if (has_key traits k) t.1) same least in
      (r, run, (most, λ z. omega (arith, most, enough z)))
