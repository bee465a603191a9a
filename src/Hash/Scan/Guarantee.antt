-- ===== src/Hash/Scan/Guarantee.antt =====
-- src/hash.h, `Hash::scan` called again and again while the hash changes in between: it misses no key
-- that is there all the time.
use redis_db.Prelude.{
  ℕ, ◌+◌, ◌^◌, ◌≤◌, ◌<◌, ◌≡◌, ◌⊎◌, refl, sym, ap, subst, ◌∙◌, Bool, true, false, ◌&&◌, List, [],
  ◌∷◌, arith, word, ltb, ltb→lt, ltb→le, ◌==◌, Bool-cases, inl, inr, count_if, to_nat, All, Run, ok,
  Returns, ◌>>=◌, if◌then◌else◌,
}
use redis_db.Traits.{Traits, has_key}
use redis_db.Table.{HashNode}
use redis_db.Table.Chains.{holds_key}
use redis_db.BitsOp.{rev}
use redis_db.BitsOp.Reverses.{rev-lt, rev-rev}
use redis_db.Hash.{Hash}
use redis_db.Hash.Valid.{IsValid, count, count-le}
use redis_db.Hash.Scan.{scan}
use redis_db.Hash.Scan.Blocks.{place}
use redis_db.Hash.Scan.Stretches.{start_of, within, start_of-lt}
use redis_db.Hash.Scan.Calls.{stretch, Covers, scan-Covers}

pub rev_zero : rev 0 ≡ 0
unfolding rev
rev_zero = refl

module _ {ℓ} {T : Type ℓ} where
  -- Calls of `scan` at the states that the hash is in one after the other, each with the cursor that
  -- the call before has returned, until it is 0 or the states run out.
  unfoldable pub scan_calls : List (Hash T) → ℕ → List T → Run (ℕ × List T)
  unfolding scan
  scan_calls [] v values = ok (v, values)
  scan_calls (h ∷ hs) v values = do
    (w, emitted) ← scan h v values
    if w == 0 then ok (w, emitted) else scan_calls hs w emitted

module _ {ℓ} {T K : Type ℓ} (traits : Traits T K) where
  open traits use {get_key, hasher}

  -- A valid state with a node under the key, its active table not empty.
  pub record Keeps (k : K) (h : Hash T) : Type ℓ where
    pub valid : IsValid traits h
    pub full : (h.active.size == 0) ≡ false
    pub present : 1 ≤ count (holds_key traits k) h

  -- Where the walk of the cursor meets the nodes under a key.
  abbrev pub place_of : K → ℕ
  place_of k = rev (word (hasher k))

  -- The cursor has yet to come to the key, or has been there.
  abbrev IsDue : K → ℕ → List T → Type 0
  IsDue k v values = (rev v ≤ place_of k) ⊎ (1 ≤ count_if (has_key traits k) values)

  guarded : (b w : Bool) → (b ≡ true → w ≡ true) → to_nat b ≤ to_nat (b && w)
  guarded b w f = ground arith

  inside : (low high p : ℕ) → low ≤ p → p < high → within low high p ≡ true
  inside low high p le lt = ground arith

  holds-within :
      (k : K) (low high : ℕ) (n : HashNode T)
      → low ≤ place_of k
      → place_of k < high
      → to_nat (holds_key traits k n)
        ≤ to_nat (has_key traits k n.value && within low high (place traits n))
  holds-within k low high n le lt =
      guarded (has_key traits k n.value) (within low high (place traits n)) λ same.
        subst (λ a. within low high (rev (word (hasher a))) ≡ true)
          (sym ((traits.equal_iff (get_key n.value) k).0 same)) (inside low high (place_of k) le lt)

  -- The cursor has yet to come to the key with the next call, or it has been there.
  abbrev Goes : K → ℕ × List T → Type 0
  Goes k r = IsDue k r.0 r.1 × (r.0 ≡ 0 → 1 ≤ count_if (has_key traits k) r.1)

  seen-Goes : (k : K) (r : ℕ × List T) → 1 ≤ count_if (has_key traits k) r.1 → Goes k r
  seen-Goes k r seen = (inr seen, λ _. seen)

  -- One call.
  call-Goes :
      (k : K) (h : Hash T) (v : ℕ) (values : List T) (r : ℕ × List T)
      → Keeps k h
      → Covers traits h v values r
      → IsDue k v values
      → Goes k r
  call-Goes k h v values r keeps covers (inr seen) =
      seen-Goes k r (omega (arith, covers.at_least (has_key traits k)))
  call-Goes k h v values r keeps covers (inl ahead) =
      let x = rev v in
      let p = place_of k in
      let high = start_of (stretch h) x + stretch h in
      let above = start_of-lt (stretch h) covers.positive x in
      elim (Bool-cases (ltb p high)) [
        | inl f ↦ seen-Goes k r (
            omega (
              arith,
              keeps.present,
              count-le (holds_key traits k)
                  (λ n. has_key traits k n.value && within x high (place traits n))
                  (λ n. holds-within k x high n ahead (ltb→lt p high f)) h,
              covers.at_least (has_key traits k),
            ))
        | inr f ↦
            let beyond = ltb→le p high f in
            let small : high < 2 ^ 64 =
              omega (arith, beyond, rev-lt (word (hasher k)) (omega arith)) in
            let same : word high ≡ high = omega arith in
            let ends : rev r.0 ≡ high =
              ap rev covers.cursor ∙ rev-rev (word high) (omega arith) ∙ same in
            (
              inl (omega (arith, ends)),
              λ zeroth. absurd (omega (arith, above, ends, ap rev zeroth, rev_zero)),
            )
      ]

  pub Covers-lt :
      {h : Hash T} {v : ℕ} {values : List T} {r : ℕ × List T}
      → Covers traits h v values r
      → r.0 < 2 ^ 64
  Covers-lt covers = subst (λ n. n < 2 ^ 64) (sym covers.cursor) (rev-lt (word _) (omega arith))

  -- What the calls come to.
  abbrev Meets : K → Run (ℕ × List T) → Type ℓ
  Meets k run = Returns run λ r. r.0 ≡ 0 → 1 ≤ count_if (has_key traits k) r.1

  call-Meets :
      (k : K) (h : Hash T) (hs : List (Hash T)) (v : ℕ) (values : List T)
      → Keeps k h
      → v < 2 ^ 64
      → IsDue k v values
      → ((r : ℕ × List T) → r.0 < 2 ^ 64 → Goes k r → Meets k (scan_calls hs r.0 r.1))
      → Meets k (scan_calls (h ∷ hs) v values)
  unfolding scan_calls
  call-Meets k h hs v values keeps lt due later =
      let (r, run, covers) = scan-Covers traits h v values keeps.valid keeps.full lt in
      let now = call-Goes k h v values r keeps covers due in
      let (s, rest, found) = later r (Covers-lt covers) now in
      elim (Bool-cases (r.0 == 0)) [
        | inl f ↦ (r, rw (run, f) refl, now.1)
        | inr f ↦ (s, rw (run, f) rest, found)
      ]

  more_calls :
      (k : K) (hs : List (Hash T)) (v : ℕ) (values : List T)
      → All (Keeps k) hs
      → v < 2 ^ 64
      → Goes k (v, values)
      → Meets k (scan_calls hs v values)
  unfolding scan_calls
  more_calls k [] v values keeps lt goes = ((v, values), refl, goes.1)
  more_calls k (h ∷ hs) v values keeps lt goes =
      call-Meets k h hs v values keeps.0 lt goes.0
        λ r lt' now. more_calls k hs r.0 r.1 keeps.1 lt' now

  -- Calls of `scan` from the cursor 0 on, each with the cursor that the call before returned, at
  -- states that may differ in any way from one call to the next, with rehashes beginning, going on
  -- and ending in between: as long as a key is in the hash at each of them, each of them is valid,
  -- and its active table is not empty, all of the calls run to an end, and if the cursor comes back
  -- to 0, then a value under the key has been emitted.
  pub scan_calls-meets :
      (k : K) (h : Hash T) (hs : List (Hash T))
      → All (Keeps k) (h ∷ hs)
      → Returns (scan_calls (h ∷ hs) 0 []) λ r. r.0 ≡ 0 → 1 ≤ count_if (has_key traits k) r.1
  scan_calls-meets k h hs keeps =
      call-Meets k h hs 0 [] keeps.0 (omega arith) (inl (omega (arith, rev_zero)))
        λ r lt now. more_calls k hs r.0 r.1 keeps.1 lt now
