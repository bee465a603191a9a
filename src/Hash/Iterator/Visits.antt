-- ===== src/Hash/Iterator/Visits.antt =====
-- src/hash.h, `begin`, `cbegin` and `next`: which nodes the iterator comes to.
use mathlib.Core.List.{append_assoc}
use redis_db.Prelude.{
  ℕ, suc, ◌+◌, ◌-◌, ◌^◌, ◌≤◌, ◌<◌, ◌≡◌, refl, ap, sym, subst, ◌⊎◌, ◌∙◌, inl, inr, true, List, [],
  ◌∷◌, ◌++◌, arith, drop, flatten, count_if, count_if-true, count_if-get_or-le, List-cases, All,
  word, ok, undefined, Returns,
}
use redis_db.Traits.{Traits, slot}
use redis_db.Table.{HashNode, Chain, HashTable, get_bucket_head}
use redis_db.Table.Bags.{bucket, contents, IsTable, home, get_bucket_head-bucket}
use redis_db.Hash.{Hash}
use redis_db.Hash.Valid.{IsResting, IsValid, SameNodes, count-resting}
use redis_db.Hash.Advance.{total}
use redis_db.Hash.Iterator.{
  settle, skip_empty, search_bucket, locate, cbegin, begin, next_from, next,
}
use redis_db.Hash.Iterator.Settle.{settle-resting, settle-IsResting}
use redis_db.Hash.Iterator.Walk.{
  PointsTo, guarded, get_bucket_head-outside, skip_empty-points, search_bucket-skip_empty,
  search_bucket-undefined, locate-bucket, flatten_at,
}

module _ {ℓ} {T K : Type ℓ} (traits : Traits T K) where
  open traits use {get_key}

  cbegin-run :
      (h r : Hash T)
      → settle traits h ≡ ok r
      → cbegin traits h
        ≡ ok (get_bucket_head r.active (skip_empty r.active.buckets_number r.active 0), r)
  unfolding cbegin
  cbegin-run h r e = rw e (ap (λ c. ok (c, r)) (guarded r.active r.active.buckets_number _ refl))

  begin-run :
      (h r : Hash T) (i : ℕ)
      → settle traits h ≡ ok r
      → search_bucket (2 ^ 31) r.active 0 ≡ ok i
      → begin traits h ≡ ok (get_bucket_head r.active i, r)
  unfolding begin
  begin-run h r i e f = rw (e, f)

  begin_fails :
      (h r : Hash T)
      → settle traits h ≡ ok r
      → search_bucket (2 ^ 31) r.active 0 ≡ undefined
      → begin traits h ≡ undefined
  unfolding begin
  begin_fails h r e f = rw (e, f)

  all_nodes : (t : HashTable T) → flatten (drop 0 t.nodes) ≡ contents t
  unfolding drop
  all_nodes t = refl

  -- Of a valid hash, `cbegin` runs without undefined behaviour to an end. Then no rehash is going
  -- on, the nodes are the same, and the iterator is at the first of them, or at the end when there
  -- are none.
  pub cbegin-PointsTo :
      (h : Hash T)
      → IsValid traits h
      → Returns
          (cbegin traits h)
          λ r. IsResting traits r.1 × SameNodes h r.1 × PointsTo r.0 (contents r.1.active)
  cbegin-PointsTo h v =
      let (r, run, (rest, same)) = settle-IsResting traits h v in
      let points =
        skip_empty-points r.active.buckets_number r.active 0 rest.home.table (omega arith) in
      (_, cbegin-run h r run, (rest, same, rw (sym (all_nodes r.active)) points))

  compare_lt : (a b : ℕ) → (a < b) ⊎ (b ≤ a)
  compare_lt a b = ground arith

  no_nodes : count_if {A = HashNode T} (λ _. true) [] ≡ 0
  unfolding count_if
  no_nodes = refl

  empty_bucket :
      (t : HashTable T)
      → IsTable t
      → count_if (λ _. true) (contents t) ≡ 0
      → (j : ℕ) → get_bucket_head t j ≡ []
  empty_bucket t w z j = elim (compare_lt j t.buckets_number) [
    | inr above ↦ get_bucket_head-outside t j above
    | inl below ↦ get_bucket_head-bucket t j below ∙ elim (List-cases (bucket t j)) [
      | inl e ↦ e
      | inr (n, c, e) ↦
          let le = count_if-get_or-le (λ _. true) t.nodes j in
          let some_there : 1 ≤ count_if (λ _. true) (bucket t j) =
            rw e (omega (arith, count_if-true (n ∷ c))) in
          absurd (omega arith)
    ]
  ]

  begin_cases :
      (h : Hash T)
      → IsValid traits h
      → ((1 ≤ total h) → begin traits h ≡ cbegin traits h)
        × (total h ≡ 0 → begin traits h ≡ undefined)
  begin_cases h v =
      let (r, run, (rest, same)) = settle-IsResting traits h v in
      let bn = r.active.buckets_number in
      let size : total h ≡ count_if (λ _. true) (contents r.active) =
        sym (same (λ _. true)) ∙ count-resting traits (λ _. true) rest in
      let none_there : total h ≡ 0 → begin traits h ≡ undefined = λ z. begin_fails h r run (
        search_bucket-undefined (2 ^ 31) r.active 0
          (empty_bucket r.active rest.home.table (sym size ∙ z))) in
      let bound = rest.home.small in
      elim (search_bucket-skip_empty bn (2 ^ 31) r.active 0 rest.home.table (omega arith)
        (omega arith)) [
          | inl e ↦
              let z : total h ≡ 0 =
                size ∙ ap (count_if (λ _. true)) (sym (all_nodes r.active) ∙ e) ∙ no_nodes in
              ((λ one. absurd (omega arith)), none_there)
          | inr e ↦ ((λ one. begin-run h r _ run e ∙ sym (cbegin-run h r run)), none_there)
        ]

  -- Of a valid hash with a node, `begin` does what `cbegin` does.
  pub begin-cbegin :
      (h : Hash T) → IsValid traits h → 1 ≤ total h → begin traits h ≡ cbegin traits h
  begin-cbegin h v = (begin_cases h v).0

  -- Of a valid hash without nodes, `begin` has undefined behaviour: its loop has no bound, and the
  -- counter overflows.
  pub begin-undefined : (h : Hash T) → IsValid traits h → total h ≡ 0 → begin traits h ≡ undefined
  begin-undefined h v = (begin_cases h v).1

  next-more :
      (h r : Hash T) (address : ℕ) (n m : HashNode T) (c : Chain T)
      → settle traits h ≡ ok r
      → locate address r.active.nodes ≡ n ∷ m ∷ c
      → next traits h address ≡ ok (m ∷ c, r)
  unfolding next next_from
  next-more h r address n m c e f = rw (e, f)

  next-last :
      (h : Hash T) (address : ℕ) (n : HashNode T) (i : ℕ)
      → IsResting traits h
      → locate address h.active.nodes ≡ n ∷ []
      → slot traits h.buckets_mask (get_key n.value) ≡ i
      → i < 2 ^ 31
      → next traits h address
        ≡ ok (
          get_bucket_head h.active (skip_empty (h.active.buckets_number - suc i) h.active (suc i)),
          h,
        )
  unfolding next next_from
  next-last h address n i v e f lt =
      let index : word (slot traits h.buckets_mask (get_key n.value) + 1) ≡ suc i = omega arith in
      rw (settle-resting traits h v, e, index)
        (ap (λ c. ok (c, h)) (guarded h.active h.buckets_number _ v.number))

  around :
      (front before c b tail : List (HashNode T))
      → b ≡ before ++ c
      → front ++ (b ++ tail) ≡ (front ++ before) ++ (c ++ tail)
  around front before c b tail e =
      rw (e, append_assoc before c tail) (sym (append_assoc front before (c ++ tail)))

  IsPlaced-home :
      (mask i : ℕ) (before : Chain T) (n : HashNode T) (c : Chain T)
      → All (λ n. home traits mask n ≡ i) (before ++ (n ∷ c))
      → home traits mask n ≡ i
  IsPlaced-home mask i [] n c h = h.0
  IsPlaced-home mask i (m ∷ before) n c h = IsPlaced-home mask i before n c h.1

  -- With no rehash going on, `next` of a node in the hash runs without undefined behaviour to an
  -- end and changes nothing: the nodes of the table, bucket after bucket, are some nodes, then this
  -- one, then the rest, and the iterator is at the first of the rest, or at the end when there are
  -- none.
  pub next-PointsTo :
      (h : Hash T) (address : ℕ) (n : HashNode T) (c : Chain T)
      → IsResting traits h
      → locate address h.active.nodes ≡ n ∷ c
      → (before rest : List (HashNode T)) × (contents h.active ≡ before ++ (n ∷ rest))
        × Returns (next traits h address) λ r. (r.1 ≡ h) × PointsTo r.0 rest
  next-PointsTo h address n (m ∷ c) v e =
      let (i, before, lt, g) = locate-bucket address h.active.nodes n (m ∷ c) e in
      let (front, split) = flatten_at h.active.nodes i lt in
      let tail = flatten (drop (suc i) h.active.nodes) in
      (
        front ++ before,
        (m ∷ c) ++ tail,
        split ∙ around front before (n ∷ m ∷ c) _ tail g,
        (
          _,
          next-more h h address n m c (settle-resting traits h v) e,
          (refl, inr (m, c, tail, refl, refl)),
        ),
      )
  next-PointsTo h address n [] v e =
      let (i, before, lt, g) = locate-bucket address h.active.nodes n [] e in
      let (front, split) = flatten_at h.active.nodes i lt in
      let tail = flatten (drop (suc i) h.active.nodes) in
      let placed = v.home.placed i in
      let at : slot traits h.buckets_mask (get_key n.value) ≡ i = rw v.mask (
        IsPlaced-home (h.active.buckets_number - 1) i before n []
          (subst (All (λ m. home traits (h.active.buckets_number - 1) m ≡ i)) g placed)) in
      let table = v.home.table in
      let bound = v.home.small in
      (
        front ++ before,
        tail,
        split ∙ around front before (n ∷ []) _ tail g,
        (
          _,
          next-last h address n i v e at (omega arith),
          (
            refl,
            skip_empty-points (h.active.buckets_number - suc i) h.active (suc i) table
                (omega arith),
          ),
        ),
      )
