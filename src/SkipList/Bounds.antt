-- ===== src/SkipList/Bounds.antt =====
-- src/SkipList.h, `isInRange`, `lower_bound` and `upper_bound`.
use redis_db.Prelude.{
  ℕ, ◌^◌, ◌<◌, ◌≡◌, refl, sym, ap, subst, ◌∙◌, inl, inr, Bool, true, false, not, ◌&&◌, List, [],
  ◌∷◌, ◌++◌, some, arith, length, All, if◌then◌else◌, lt→ltb, Bool-cases, Run, ok, ◌>>=◌,
}
use redis_db.SkipList.{Order, SkipList, Descent, descend, is_in_range, lower_bound, upper_bound}
use redis_db.SkipList.Memory.{Heap, null, next_at, entry_at, backward_at}
use redis_db.SkipList.Towers.{Tower, next_of}
use redis_db.SkipList.Layout.{
  Chain, Backs, Holds, IsSkipList, next_at-ok, entry_at-ok, backward_at-ok,
}
use redis_db.SkipList.Split.{above, from, IsMonotone, above-IsMonotone, from-IsMonotone}
use redis_db.SkipList.Reads.{descend-Stands}

module _ {ℓ} {K V : Type ℓ} where
  -- The address of the first node at whose key the test holds, or the tail.
  abbrev pub first_at : (tail : ℕ) → (K → Bool) → List (Tower K V) → ℕ
  first_at tail stop [] = tail
  first_at tail stop (t ∷ ts) = if stop t.key then t.address else first_at tail stop ts

  -- The last node of `t ∷ ts`.
  abbrev pub last_of : Tower K V → List (Tower K V) → Tower K V
  last_of t [] = t
  last_of t (u ∷ ts) = last_of u ts

  first_at-next_of :
      (h : Heap K V) (tail : ℕ) (stop : K → Bool) (b a : List (Tower K V))
      → Chain h tail (b ++ a)
      → All (λ (t : Tower K V). stop t.key ≡ false) b
      → All (λ (t : Tower K V). stop t.key ≡ true) a
      → first_at tail stop (b ++ a) ≡ next_of tail 0 a
  first_at-next_of h tail stop [] [] s miss hit = refl
  first_at-next_of h tail stop [] (t ∷ a) s miss hit = rw (hit.0, lt→ltb 0 t.height s.0.positive)
  first_at-next_of h tail stop (t ∷ b) a s miss hit =
      rw miss.0 (first_at-next_of h tail stop b a s.1 miss.1 hit)

  backward-last_of :
      (h : Heap K V) (tail prev : ℕ) (t : Tower K V) (ts : List (Tower K V))
      → Backs h tail prev (t ∷ ts)
      → h.backward tail ≡ (last_of t ts).address
  backward-last_of h tail prev t [] s = s.1
  backward-last_of h tail prev t (u ∷ ts) s = backward-last_of h tail t.address u ts s.1

  entry-last_of :
      (h : Heap K V) (tail : ℕ) (t : Tower K V) (ts : List (Tower K V))
      → Chain h tail (t ∷ ts)
      → h.entry (last_of t ts).address ≡ some ((last_of t ts).key, (last_of t ts).value)
  entry-last_of h tail t [] s = s.0.entry
  entry-last_of h tail t (u ∷ ts) s = entry-last_of h tail u ts s.1

module _ {ℓ} {K V : Type ℓ} (order : Order K) where
  open order use {less}

  is_in_range-run :
      (h : Heap K V) (l : SkipList) (k : K) (p q : ℕ) (e f : K × V)
      → next_at h l.head 0 ≡ ok p
      → entry_at h p ≡ ok e
      → backward_at h l.tail ≡ ok q
      → entry_at h q ≡ ok f
      → is_in_range order h l k ≡ ok (not (less k e.0) && not (less f.0 k))
  unfolding is_in_range
  is_in_range-run h l k p q e f first at last there = elim (Bool-cases (less k e.0)) [
    | inl g ↦ rw (first, at, g)
    | inr g ↦ rw (first, at, g, last, there)
  ]

  -- Not below the first key and not above the last.
  is_in_range_lem :
      (h : Heap K V) (l : SkipList) (k : K) (t : Tower K V) (ts : List (Tower K V))
      → Holds h l (t ∷ ts)
      → is_in_range order h l k ≡ ok (not (less k t.key) && not (less (last_of t ts).key k))
  is_in_range_lem h l k t ts s =
      let first : h.next l.head 0 ≡ t.address =
        (s.head_links 0 (omega arith)).0 ∙ rw (lt→ltb 0 t.height s.chain.0.positive) in
      let u = last_of t ts in
      is_in_range-run h l k t.address u.address (t.key, t.value) (u.key, u.value)
        (next_at-ok h l.head 0 (omega (arith, s.head_levels)) ∙ ap ok first)
        (entry_at-ok h t.address s.chain.0.entry)
        (backward_at-ok h l.tail s.tail_is ∙ ap ok (backward-last_of h l.tail l.head t ts s.backs))
        (entry_at-ok h u.address (entry-last_of h l.tail t ts s.chain))

  -- What both bounds do.
  bound : (K → Bool) → Heap K V → SkipList → K → Run ℕ
  bound stop h l k = do
    inside ← is_in_range order h l k
    if inside then (do d ← descend l stop h; next_at h d.node 0) else ok null

  bound-run :
      (stop : K → Bool) (h : Heap K V) (l : SkipList) (k : K) (inside : Bool) (d : Descent) (p : ℕ)
      → is_in_range order h l k ≡ ok inside
      → descend l stop h ≡ ok d
      → next_at h d.node 0 ≡ ok p
      → bound stop h l k ≡ ok (if inside then p else null)
  unfolding bound
  bound-run stop h l k true d p e f g = rw (e, f, g)
  bound-run stop h l k false d p e f g = rw e

  -- The key lies between the first and the last.
  abbrev pub inside : K → Tower K V → List (Tower K V) → Bool
  inside k t ts = not (less k t.key) && not (less (last_of t ts).key k)

  bound-first_at :
      (stop : K → Bool) (h : Heap K V) (l : SkipList) (t : Tower K V) (ts : List (Tower K V))
      (k : K)
      → IsSkipList order h l (t ∷ ts)
      → IsMonotone order stop
      → length (t ∷ ts) < 2 ^ 31
      → bound stop h l k ≡ ok (if inside k t ts then first_at l.tail stop (t ∷ ts) else null)
  bound-first_at stop h l t ts k s m small =
      let (b, a, e, miss, hit, (d, run, at)) = descend-Stands order h l stop (t ∷ ts) s m small in
      let first : first_at l.tail stop (t ∷ ts) ≡ next_of l.tail 0 a =
        ap (first_at l.tail stop) e
        ∙ first_at-next_of h l.tail stop b a (subst (Chain h l.tail) e s.holds.chain) miss hit in
      bound-run stop h l k (inside k t ts) d (next_of l.tail 0 a)
        (is_in_range_lem h l k t ts s.holds) run at.behind
      ∙ ap (λ q. ok (if inside k t ts then q else null)) (sym first)

  -- Of a skip list with a node and less than 2 ^ 31 of them, `lower_bound` runs without undefined
  -- behaviour to an end. For a key between the first and the last, it answers the first node whose
  -- key is not below it; for any other key, also one below all keys, it answers null.
  pub lower_bound-first_at :
      (h : Heap K V) (l : SkipList) (t : Tower K V) (ts : List (Tower K V)) (k : K)
      → IsSkipList order h l (t ∷ ts)
      → length (t ∷ ts) < 2 ^ 31
      → lower_bound order h l k
        ≡ ok (if inside k t ts then first_at l.tail (from order k) (t ∷ ts) else null)
  unfolding lower_bound bound
  lower_bound-first_at h l t ts k s small =
      bound-first_at (from order k) h l t ts k s (from-IsMonotone order k) small

  -- Of a skip list with a node and less than 2 ^ 31 of them, `upper_bound` runs without undefined
  -- behaviour to an end. For a key between the first and the last, it answers the first node whose
  -- key is above it, or the tail if there is none; for any other key, it answers null.
  pub upper_bound-first_at :
      (h : Heap K V) (l : SkipList) (t : Tower K V) (ts : List (Tower K V)) (k : K)
      → IsSkipList order h l (t ∷ ts)
      → length (t ∷ ts) < 2 ^ 31
      → upper_bound order h l k
        ≡ ok (if inside k t ts then first_at l.tail (above order k) (t ∷ ts) else null)
  unfolding upper_bound bound
  upper_bound-first_at h l t ts k s small =
      bound-first_at (above order k) h l t ts k s (above-IsMonotone order k) small
