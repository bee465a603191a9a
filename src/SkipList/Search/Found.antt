-- ===== src/SkipList/Search/Found.antt =====
-- src/SkipList.h, one round of the walk down the levels, and what the walk finds.
use redis_db.Prelude.{
  ℕ, suc, ◌+◌, ◌<◌, ◌≡◌, ◌≢◌, refl, ap, ◌∙◌, inl, inr, Bool, true, false, some, List, [], ◌∷◌, ◌++◌,
  arith, length, All, if◌then◌else◌, ltb, Bool-cases, ≡→==, ≢→==, lt→ltb, ok,
}
use redis_db.SkipList.{Descent, stops_at, search}
use redis_db.SkipList.Memory.{Heap, update, int_add}
use redis_db.SkipList.Towers.{
  Tower, next_of, low, prev_of, rank_of, has, prev_of-low, rank_of-low, prev_of-high, rank_of-high,
}
use redis_db.SkipList.Layout.{Chain, next_at-ok, span_at-ok, entry_at-ok}

module _ {ℓ} {K V : Type ℓ} (tail : ℕ) (stop : K → Bool) (h : Heap K V) where
  pub search-down :
      (fuel level node rank : ℕ) (prevs ranks : ℕ → ℕ)
      → level < h.levels node
      → stops_at tail stop h (h.next node level) ≡ ok true
      → search tail stop h (suc fuel) (suc level) node rank prevs ranks
        ≡ search tail stop h fuel level node rank
            (update prevs level node)
            (update ranks level rank)
  unfolding search
  search-down fuel level node rank prevs ranks lt e = rw (next_at-ok h node level lt, e)

  pub search-on :
      (fuel level node rank : ℕ) (prevs ranks : ℕ → ℕ)
      → level < h.levels node
      → stops_at tail stop h (h.next node level) ≡ ok false
      → search tail stop h (suc fuel) (suc level) node rank prevs ranks
        ≡ search tail stop h fuel
            (suc level)
            (h.next node level)
            (int_add rank (h.span node level))
            prevs
            ranks
  unfolding search
  search-on fuel level node rank prevs ranks lt e =
      rw (next_at-ok h node level lt, e, span_at-ok h node level lt)

  pub stops_at-tail : stops_at tail stop h tail ≡ ok true
  unfolding stops_at
  stops_at-tail = rw (≡→== tail tail refl)

  pub stops_at-node :
      (p : ℕ) (e : K × V) → p ≢ tail → h.entry p ≡ some e → stops_at tail stop h p ≡ ok (stop e.0)
  unfolding stops_at
  stops_at-node p e ne f = rw (≢→== p tail ne, entry_at-ok h p f)

  -- In front of the nodes at whose keys the walk stops, it stops on every level.
  pub stops_at-next_of :
      (j : ℕ) (a : List (Tower K V))
      → Chain h tail a
      → has tail a ≡ false
      → All (λ (t : Tower K V). stop t.key ≡ true) a
      → stops_at tail stop h (next_of tail j a) ≡ ok true
  stops_at-next_of j [] s out hit = stops_at-tail
  stops_at-next_of j (t ∷ a) s out hit = elim (Bool-cases (ltb j t.height)) [
    | inl e ↦ rw e (stops_at-node t.address (t.key, t.value) (ground arith) s.0.entry ∙ ap ok hit.0)
    | inr e ↦ rw e (stops_at-next_of j a s.1 (ground arith) hit.1)
  ]

  -- What the walk finds from the node `p` of rank `r`, with `n` levels left, in front of the nodes
  -- `b` at which it does not stop.
  pub record Finds (n p r : ℕ) (prevs ranks : ℕ → ℕ) (b : List (Tower K V)) (d : Descent)
      : Type 0 where
    pub prevs_are : (j : ℕ) → d.prevs j ≡ (if ltb j n then prev_of j p b else prevs j)
    pub ranks_are : (j : ℕ) → d.ranks j ≡ (if ltb j n then rank_of j r r b else ranks j)
    pub node_is : d.node ≡ (if ltb 0 n then prev_of 0 p b else p)
    pub rank_is : d.rank ≡ (if ltb 0 n then rank_of 0 r r b else r)

  pub found-prev :
      {n p r : ℕ} {prevs ranks : ℕ → ℕ} {b : List (Tower K V)} {d : Descent}
      → Finds n p r prevs ranks b d
      → (j : ℕ) → j < n
      → (d.prevs j ≡ prev_of j p b) × (d.ranks j ≡ rank_of j r r b)
  found-prev {n} f j lt = (f.prevs_are j ∙ rw (lt→ltb j n lt), f.ranks_are j ∙ rw (lt→ltb j n lt))

  pub found-node :
      {n p r : ℕ} {prevs ranks : ℕ → ℕ} {b : List (Tower K V)} {d : Descent}
      → Finds n p r prevs ranks b d
      → 0 < n
      → (d.node ≡ prev_of 0 p b) × (d.rank ≡ rank_of 0 r r b)
  found-node {n} f lt = (f.node_is ∙ rw (lt→ltb 0 n lt), f.rank_is ∙ rw (lt→ltb 0 n lt))

  pub Finds-down :
      (m p r : ℕ) (prevs ranks : ℕ → ℕ) (b : List (Tower K V)) (d : Descent)
      → low m b ≡ true
      → Finds m p r (update prevs m p) (update ranks m r) b d
      → Finds (suc m) p r prevs ranks b d
  Finds-down m p r prevs ranks b d l f = record {
    prevs_are = λ j. ground (arith, f.prevs_are j, prev_of-low m p b l);
    ranks_are = λ j. ground (arith, f.ranks_are j, rank_of-low m r r b l);
    node_is = ground (arith, f.node_is, prev_of-low m p b l);
    rank_is = ground (arith, f.rank_is, rank_of-low m r r b l);
  }

  pub Finds-on :
      (m p r : ℕ) (prevs ranks : ℕ → ℕ) (c : List (Tower K V)) (t : Tower K V)
      (rest : List (Tower K V)) (d : Descent)
      → m < t.height
      → Finds (suc m) t.address (suc (r + length c)) prevs ranks rest d
      → Finds (suc m) p r prevs ranks (c ++ (t ∷ rest)) d
  Finds-on m p r prevs ranks c t rest d lt f = record {
    prevs_are = λ j. ground (arith, f.prevs_are j, prev_of-high j p c t rest);
    ranks_are = λ j. ground (arith, f.ranks_are j, rank_of-high j r r c t rest);
    node_is = ground (arith, f.node_is, prev_of-high 0 p c t rest);
    rank_is = ground (arith, f.rank_is, rank_of-high 0 r r c t rest);
  }
