-- ===== src/SkipList/Reads.antt =====
-- src/SkipList.h, what `getRank`, `lower_bound` and `upper_bound` answer.
use redis_db.Prelude.{
  ℕ, ◌+◌, ◌^◌, ◌<◌, ◌≡◌, refl, ap, subst, ◌∙◌, Bool, true, false, ◌||◌, List, [], ◌∷◌, ◌++◌, arith,
  length, length-append, All, All-append, if◌then◌else◌, ok, Returns,
}
use redis_db.SkipList.{Order, SkipList, Descent, descend}
use redis_db.SkipList.Memory.{Heap, next_at}
use redis_db.SkipList.Towers.{Tower, next_of, prev_of, rank_of}
use redis_db.SkipList.Layout.{Holds, IsSorted, IsSkipList, next_at-ok}
use redis_db.SkipList.Search.{descend-Finds}
use redis_db.SkipList.Search.Found.{found-node}
use redis_db.SkipList.Ends.{head-Leads}
use redis_db.SkipList.Split.{IsMonotone, split}

module _ {ℓ} {K V : Type ℓ} (order : Order K) where
  open order use {less, equal, equal_iff, less_asymm, less_of_not_less}

  -- The node that a walk ends at, with its rank and the node behind it.
  pub record Stands (h : Heap K V) (l : SkipList) (b a : List (Tower K V)) (d : Descent)
      : Type 0 where
    pub node_is : d.node ≡ prev_of 0 l.head b
    pub rank_is : d.rank ≡ rank_of 0 0 0 b
    pub behind : next_at h d.node 0 ≡ ok (next_of l.tail 0 a)

  pub descend-Stands :
      (h : Heap K V) (l : SkipList) (stop : K → Bool) (ts : List (Tower K V))
      → IsSkipList order h l ts
      → IsMonotone order stop
      → length ts < 2 ^ 31
      → (b a : List (Tower K V)) × (ts ≡ b ++ a)
        × All (λ (t : Tower K V). stop t.key ≡ false) b
        × All (λ (t : Tower K V). stop t.key ≡ true) a
        × Returns (descend l stop h) (Stands h l b a)
  descend-Stands h l stop ts s m small =
      let (b, a, e, miss, hit) = split order stop ts m s.sorted in
      let holds = subst (Holds h l) e s.holds in
      let short : length b < 2 ^ 31 = omega (arith, ap length e, length-append b a) in
      let (d, run, f) = descend-Finds h l stop b a holds miss hit short in
      let led = head-Leads h l b a 0 holds (omega arith) in
      let (at, rank) = found-node l.tail stop h f (omega arith) in
      (
        b,
        a,
        e,
        miss,
        hit,
        (
          d,
          run,
          record {
            node_is = at;
            rank_is = rank;
            behind = rw at (next_at-ok h _ 0 led.level ∙ ap ok led.next);
          },
        ),
      )

  -- The key is that of some node.
  abbrev pub member : K → List (Tower K V) → Bool
  member k [] = false
  member k (t ∷ ts) = equal t.key k || member k ts

  pub member-append :
      (k : K) (b a : List (Tower K V)) → member k (b ++ a) ≡ (member k b || member k a)
  member-append k [] a = refl
  member-append k (t ∷ b) a = ground (arith, member-append k b a)

  -- How many nodes have a key that is not above `k`.
  abbrev pub not_above : K → List (Tower K V) → ℕ
  not_above k [] = 0
  not_above k (t ∷ ts) = (if less k t.key then 0 else 1) + not_above k ts

  pub not_above-below :
      (k : K) (b a : List (Tower K V))
      → All (λ (t : Tower K V). less k t.key ≡ false) b
      → All (λ (t : Tower K V). less k t.key ≡ true) a
      → not_above k (b ++ a) ≡ length b
  not_above-below k [] [] miss hit = refl
  not_above-below k [] (t ∷ a) miss hit = rw hit.0 (omega (arith, not_above-below k [] a tt hit.1))
  not_above-below k (t ∷ b) a miss hit = rw miss.0 (omega (arith, not_above-below k b a miss.1 hit))

  pub member-above :
      (k : K) (a : List (Tower K V))
      → All (λ (t : Tower K V). less k t.key ≡ true) a
      → member k a ≡ false
  member-above k [] hit = refl
  member-above k (t ∷ a) hit = ground (arith, equal_iff t.key k, member-above k a hit.1)

  -- No key up to one below `k` is `k`.
  pub member-below :
      (k : K) (c : List (Tower K V)) (x : K)
      → less x k ≡ true
      → All (λ (t : Tower K V). less x t.key ≡ false) c
      → member k c ≡ false
  member-below k [] x lt s = refl
  member-below k (t ∷ c) x lt s =
      ground (arith, equal_iff t.key k, less_of_not_less x t.key k lt, member-below k c x lt s.1)

  -- The last key is not below any before it.
  pub last-IsSorted :
      (c a : List (Tower K V)) (t : Tower K V)
      → IsSorted order (c ++ (t ∷ a))
      → All (λ (u : Tower K V). less t.key u.key ≡ false) c
  last-IsSorted [] a t s = tt
  last-IsSorted (u ∷ c) a t s =
      let (_, at) = All-append (λ (x : Tower K V). less x.key u.key ≡ false) c (t ∷ a) s.0 in
      (at.0, last-IsSorted c a t s.1)
