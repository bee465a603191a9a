-- ===== src/SkipList/Search.antt =====
-- src/SkipList.h, the walk down the levels that `insert`, `erase`, the bounds and `getRank` share.
pub mod Found
use redis_db.Prelude.{
  ℕ, zero, suc, ◌+◌, ◌^◌, ◌≤◌, ◌<◌, ◌≡◌, ◌≢◌, refl, sym, ap, subst, ◌∙◌, inl, inr, Bool, true,
  false, some, All-append, List, [], ◌∷◌, ◌++◌, arith, length, length-append, All, if◌then◌else◌,
  ltb, Bool-cases, ≡→==, ≢→==, lt→ltb, ok, Returns,
}
use mathlib.Core.List.{append_assoc}
use redis_db.SkipList.{SkipList, Descent, stops_at, search, descend}
use redis_db.SkipList.Memory.{Heap, null, update, int_add}
use redis_db.SkipList.Towers.{
  Tower, next_of, low, prev_of, rank_of, has, next_of-low, span_of-low, prev_of-low, rank_of-low,
  has-append, high_cases, prev_of-high, rank_of-high,
}
use redis_db.SkipList.Layout.{
  Linked, Chain, Holds, Chain-append, next_at-ok, span_at-ok, entry_at-ok,
}
use Found.{search-down, search-on, stops_at-node, stops_at-next_of, Finds, Finds-down, Finds-on}

module _ {ℓ} {K V : Type ℓ} (tail : ℕ) (stop : K → Bool) (h : Heap K V) where
  search-end :
      (fuel p r : ℕ) (prevs ranks : ℕ → ℕ) (b : List (Tower K V))
      → Returns
          (search tail stop h (suc fuel) zero p r prevs ranks)
          (Finds tail stop h 0 p r prevs ranks b)
  unfolding search
  search-end fuel p r prevs ranks b = (
    _,
    refl,
    record {
      prevs_are = λ j. ground arith;
      ranks_are = λ j. ground arith;
      node_is = refl;
      rank_is = refl;
    },
  )

  has-right : (q : ℕ) (b a : List (Tower K V)) → has q (b ++ a) ≡ false → has q a ≡ false
  has-right q b a e = ground (arith, has-append q b a)

  search-forward :
      (fuel m p r : ℕ) (prevs ranks : ℕ → ℕ) (c : List (Tower K V)) (t : Tower K V)
      (ts : List (Tower K V))
      → suc m ≤ h.levels p
      → Linked h tail p (suc m) (c ++ (t ∷ ts))
      → h.entry t.address ≡ some (t.key, t.value)
      → t.address ≢ tail
      → stop t.key ≡ false
      → low m c ≡ true
      → m < t.height
      → suc (r + length c) < 2 ^ 31
      → search tail stop h (suc fuel) (suc m) p r prevs ranks
        ≡ search tail stop h fuel (suc m) t.address (suc (r + length c)) prevs ranks
  search-forward fuel m p r prevs ranks c t ts levels links entry ne miss l lt small =
      let at : h.next p m ≡ t.address =
        (links m (omega arith)).0 ∙ next_of-low tail m c (t ∷ ts) l ∙ rw (lt→ltb m t.height lt) in
      let far : h.span p m ≡ suc (length c) =
        (links m (omega arith)).1
        ∙ span_of-low m c (t ∷ ts) l
        ∙ rw (lt→ltb m t.height lt) (omega arith) in
      let sum : int_add r (h.span p m) ≡ suc (r + length c) = rw far (omega arith) in
      let free : stops_at tail stop h (h.next p m) ≡ ok false =
        rw at (stops_at-node tail stop h t.address (t.key, t.value) ne entry ∙ ap ok miss) in
      search-on tail stop h fuel m p r prevs ranks (omega arith) free
      ∙ ap (λ q. search tail stop h fuel (suc m) q (int_add r (h.span p m)) prevs ranks) at
      ∙ ap (λ n. search tail stop h fuel (suc m) t.address n prevs ranks) sum

  -- The walk ends, and finds the last node on each level in front of the stop.
  pub search-Finds :
      (fuel n p r : ℕ) (prevs ranks : ℕ → ℕ) (b a : List (Tower K V))
      → n ≤ h.levels p
      → Linked h tail p n (b ++ a)
      → Chain h tail (b ++ a)
      → has tail (b ++ a) ≡ false
      → All (λ (t : Tower K V). stop t.key ≡ false) b
      → All (λ (t : Tower K V). stop t.key ≡ true) a
      → r + length b < 2 ^ 31
      → length b + n < fuel
      → Returns (search tail stop h fuel n p r prevs ranks) (Finds tail stop h n p r prevs ranks b)
  search-Finds zero n p r prevs ranks b a levels links s out miss hit small enough =
      absurd (omega arith)
  search-Finds (suc fuel) zero p r prevs ranks b a levels links s out miss hit small enough =
      search-end fuel p r prevs ranks b
  search-Finds (suc fuel) (suc m) p r prevs ranks b a levels links s out miss hit small enough =
      elim (high_cases m b) [
        | inl l ↦
            let (d, run, f) =
              search-Finds fuel m p r (update prevs m p) (update ranks m r) b a (omega arith)
                (λ j lt. links j (omega arith)) s out miss hit small (omega arith) in
            let ends : h.next p m ≡ next_of tail m a =
              (links m (omega arith)).0 ∙ next_of-low tail m b a l in
            let stopped : stops_at tail stop h (h.next p m) ≡ ok true = rw ends (
              stops_at-next_of tail stop h m a (Chain-append h tail b a s) (has-right tail b a out)
                hit) in
            (
              d,
              search-down tail stop h fuel m p r prevs ranks (omega arith) stopped ∙ run,
              Finds-down tail stop h m p r prevs ranks b d l f,
            )
        | inr (c, t, rest, e, l, lt) ↦
            let whole : b ++ a ≡ c ++ (t ∷ (rest ++ a)) =
              ap (λ x. x ++ a) e ∙ append_assoc c (t ∷ rest) a in
            let (node, chain) =
              Chain-append h tail c (t ∷ (rest ++ a)) (subst (Chain h tail) whole s) in
            let apart : has tail (t ∷ (rest ++ a)) ≡ false =
              has-right tail c (t ∷ (rest ++ a)) (sym (ap (has tail) whole) ∙ out) in
            let (_, missed) =
              All-append (λ (u : Tower K V). stop u.key ≡ false) c (t ∷ rest)
                (subst (All (λ (u : Tower K V). stop u.key ≡ false)) e miss) in
            let size : length b ≡ length c + suc (length rest) =
              ap length e ∙ length-append c (t ∷ rest) in
            let (d, run, f) =
              search-Finds fuel (suc m) t.address (suc (r + length c)) prevs ranks rest a
                (omega (arith, node.levels)) (λ j le. node.links j (omega arith)) chain
                (ground arith) missed.1 hit (omega arith) (omega arith) in
            (
              d,
              search-forward fuel m p r prevs ranks c t (rest ++ a) levels
                    (subst (Linked h tail p (suc m)) whole links) node.entry (ground arith) missed.0
                    l lt (omega arith)
                  ∙ run,
              subst (λ x. Finds tail stop h (suc m) p r prevs ranks x d) (sym e)
                  (Finds-on tail stop h m p r prevs ranks c t rest d lt f),
            )
      ]

module _ {ℓ} {K V : Type ℓ} where
  -- Of the nodes `b ++ a`, a walk that stops at those of `a` and not at those of `b` finds, on each
  -- level that the list has, the last node of `b` with that level, or the head.
  pub descend-Finds :
      (h : Heap K V) (l : SkipList) (stop : K → Bool) (b a : List (Tower K V))
      → Holds h l (b ++ a)
      → All (λ (t : Tower K V). stop t.key ≡ false) b
      → All (λ (t : Tower K V). stop t.key ≡ true) a
      → length b < 2 ^ 31
      → Returns
          (descend l stop h)
          (Finds l.tail stop h (suc l.max_level) l.head 0 (λ _. null) (λ _. 0) b)
  unfolding descend
  descend-Finds h l stop b a s miss hit small =
      let n = l.length + l.max_level + 2 in
      let size = length-append b a in
      let counted = s.counted in
      let one : l.max_level + 1 ≡ suc l.max_level = omega arith in
      rw one (
        search-Finds l.tail stop h n (suc l.max_level) l.head 0 (λ _. null) (λ _. 0) b a
          (omega (arith, s.head_levels)) s.head_links s.chain s.not_tail miss hit (omega arith)
          (omega arith))
