-- ===== src/SkipList/Rank.antt =====
-- src/SkipList.h, `getRank`.
use redis_db.Prelude.{
  ℕ, ◌^◌, ◌<◌, ◌≡◌, refl, ap, subst, ◌∙◌, inl, inr, Bool, true, false, List, [], ◌∷◌, ◌++◌, arith,
  length, length-append, All, All-append, if◌then◌else◌, Bool-cases, ok,
}
use mathlib.Core.List.{append_assoc}
use redis_db.SkipList.{Order, SkipList, Descent, descend, get_rank}
use redis_db.SkipList.Memory.{Heap, entry_at}
use redis_db.SkipList.Towers.{Tower, prev_of, rank_of, prev_of-high, rank_of-high}
use redis_db.SkipList.Layout.{Chain, IsSorted, IsSkipList, Chain-append, entry_at-ok}
use redis_db.SkipList.Ends.{last_cases}
use redis_db.SkipList.Split.{above, above-IsMonotone}
use redis_db.SkipList.Reads.{
  descend-Stands, member, member-append, not_above, not_above-below, member-above, member-below,
  last-IsSorted,
}

same_zero : (c : Bool) → ◌≡◌ {A = ℕ} (if c then 0 else 0) 0
same_zero true = refl
same_zero false = refl

module _ {ℓ} {K V : Type ℓ} (order : Order K) where
  open order use {less, equal, equal_iff}

  get_rank-run :
      (h : Heap K V) (l : SkipList) (k : K) (d : Descent) (e : K × V)
      → descend l (λ key. less k key) h ≡ ok d
      → entry_at h d.node ≡ ok e
      → get_rank order h l k ≡ ok (if equal e.0 k then d.rank else 0)
  unfolding get_rank
  get_rank-run h l k d e f g = rw (f, g)

  -- The key of the node that stands last among those not above `k`.
  member-last :
      (k : K) (c a : List (Tower K V)) (t : Tower K V)
      → IsSorted order (c ++ (t ∷ a))
      → less k t.key ≡ false
      → All (λ (u : Tower K V). less k u.key ≡ true) a
      → member order k (c ++ (t ∷ a)) ≡ equal t.key k
  member-last k c a t s miss hit = elim (Bool-cases (equal t.key k)) [
    | inl e ↦ ground (arith, member-append order k c (t ∷ a))
    | inr e ↦
        let below : less t.key k ≡ true = ground (arith, equal_iff t.key k) in
        let left = member-below order k c t.key below (last-IsSorted order c a t s) in
        let right = member-above order k a hit in ground (arith, member-append order k c (t ∷ a))
  ]

  -- Of a skip list with less than 2 ^ 31 nodes, `getRank` runs without undefined behaviour to an end.
  -- It answers how many nodes have a key that is not above `k`, if some node has the key `k`, and 0
  -- otherwise.
  pub get_rank-not_above :
      (h : Heap K V) (l : SkipList) (ts : List (Tower K V)) (k : K)
      → IsSkipList order h l ts
      → length ts < 2 ^ 31
      → get_rank order h l k ≡ ok (if member order k ts then not_above order k ts else 0)
  get_rank-not_above h l ts k s small =
      let (b, a, e, miss, hit, (d, run, at)) =
        descend-Stands order h l (above order k) ts s (above-IsMonotone order k) small in
      let counted : not_above order k ts ≡ length b =
        ap (not_above order k) e ∙ not_above-below order k b a miss hit in
      elim (last_cases b) [
        | inl f ↦
            let node : d.node ≡ l.head = at.node_is ∙ ap (prev_of 0 l.head) f in
            let rank : d.rank ≡ 0 = at.rank_is ∙ ap (rank_of 0 0 0) f in
            let nobody : member order k ts ≡ false =
              ap (member order k) (e ∙ ap (λ x. x ++ a) f) ∙ member-above order k a hit in
            get_rank-run h l k d s.holds.head_entry run
              (ap (entry_at h) node ∙ entry_at-ok h l.head s.holds.head_is)
            ∙ rw (rank, nobody) (ap ok (same_zero (equal s.holds.head_entry.0 k)))
        | inr (c, t, f) ↦
            let whole : ts ≡ c ++ (t ∷ a) = e ∙ ap (λ x. x ++ a) f ∙ append_assoc c (t ∷ []) a in
            let (there, _) =
              Chain-append h l.tail c (t ∷ a) (subst (Chain h l.tail) whole s.holds.chain) in
            let positive = there.positive in
            let (_, missed) =
              All-append (λ (u : Tower K V). less k u.key ≡ false) c (t ∷ [])
                (subst (All (λ (u : Tower K V). less k u.key ≡ false)) f miss) in
            let node : d.node ≡ t.address =
              at.node_is ∙ ap (prev_of 0 l.head) f ∙ prev_of-high 0 l.head c t [] (omega arith) in
            let rank : d.rank ≡ not_above order k ts =
              at.rank_is
              ∙ ap (rank_of 0 0 0) f
              ∙ rank_of-high 0 0 0 c t [] (omega arith)
              ∙ omega (arith, counted, ap length f, length-append c (t ∷ [])) in
            let known : member order k ts ≡ equal t.key k =
              ap (member order k) whole
              ∙ member-last k c a t (subst (IsSorted order) whole s.sorted) missed.0 hit in
            get_rank-run h l k d (t.key, t.value) run
              (ap (entry_at h) node ∙ entry_at-ok h t.address there.entry)
            ∙ rw (rank, known)
      ]
