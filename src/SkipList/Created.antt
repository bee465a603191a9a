-- ===== src/SkipList/Created.antt =====
-- src/SkipList.h, the constructor of `SkipList`.
use redis_db.Prelude.{
  ℕ, ◌≤◌, ◌≡◌, ◌≢◌, refl, ap, ◌∙◌, [], some, arith, ◌==◌, ≡→==, Bool-cases, inl, inr, ok, Returns,
}
use redis_db.SkipList.{Order, SkipList, new_skip_list}
use redis_db.SkipList.Memory.{Heap, update_at, new_node, set_level_num, set_next, set_backward}
use redis_db.SkipList.Layout.{IsSkipList}
use redis_db.SkipList.Link.{set_next-ok}
use redis_db.SkipList.Backward.{pointed_back, set_backward-ok}

abbrev created_list : (head tail : ℕ) → SkipList
created_list head tail = record { head = head; tail = tail; max_level = 0; length = 0 }

module _ {ℓ} {K V : Type ℓ} where
  -- The dummy nodes, not yet linked.
  abbrev dummies : Heap K V → K × V → (head tail : ℕ) → Heap K V
  dummies h blank head tail =
      set_level_num
        (set_level_num (new_node (new_node h head blank.0 blank.1) tail blank.0 blank.1) head 1)
        tail 1

  abbrev created : Heap K V → K × V → (head tail : ℕ) → Heap K V
  created h blank head tail =
      let g = dummies h blank head tail in
      pointed_back (record g { next = update_at g.next head 0 tail }) tail head

  dummies-entries :
      (h : Heap K V) (blank : K × V) (head tail : ℕ)
      → ((dummies h blank head tail).entry head ≡ some blank)
        × ((dummies h blank head tail).entry tail ≡ some blank)
  unfolding new_node set_level_num
  dummies-entries h blank head tail = elim (Bool-cases (head == tail)) [
    | inl e ↦ rw (e, ≡→== tail tail refl) (refl, refl)
    | inr e ↦ rw (e, ≡→== head head refl, ≡→== tail tail refl) (refl, refl)
  ]

  dummies-levels :
      (h : Heap K V) (blank : K × V) (head tail : ℕ)
      → ((dummies h blank head tail).levels head ≡ 1)
        × ((dummies h blank head tail).levels tail ≡ 1)
  unfolding new_node set_level_num
  dummies-levels h blank head tail = ground arith

  created-links :
      (h : Heap K V) (blank : K × V) (head tail : ℕ)
      → head ≢ tail
      → ((created h blank head tail).next head 0 ≡ tail)
        × ((created h blank head tail).span head 0 ≡ 0)
        × ((created h blank head tail).next tail 0 ≡ 0)
        × ((created h blank head tail).backward tail ≡ head)
  unfolding new_node set_level_num
  created-links h blank head tail ne = ground arith

  new_skip_list-run :
      (h : Heap K V) (blank : K × V) (head tail : ℕ) (g g' : Heap K V)
      → set_next (dummies h blank head tail) head 0 tail ≡ ok g
      → set_backward g tail head ≡ ok g'
      → new_skip_list h blank head tail ≡ ok (g', created_list head tail)
  unfolding new_skip_list
  new_skip_list-run h blank head tail g g' e f = rw (e, f)

module _ {ℓ} {K V : Type ℓ} (order : Order K) where
  -- The constructor runs without undefined behaviour to an end, where `new` returns two addresses
  -- that are not null, and leaves a skip list without nodes.
  pub new_skip_list-IsSkipList :
      (h : Heap K V) (blank : K × V) (head tail : ℕ)
      → head ≢ tail
      → 1 ≤ head
      → 1 ≤ tail
      → Returns (new_skip_list h blank head tail) (λ r. IsSkipList order r.0 r.1 [])
  new_skip_list-IsSkipList h blank head tail ne positive positive' =
      let g = dummies h blank head tail in
      let (at_head, at_tail) = dummies-entries h blank head tail in
      let (levels, levels') = dummies-levels h blank head tail in
      let (next, span, end, back) = created-links h blank head tail ne in
      (
        _,
        new_skip_list-run h blank head tail _ _ (set_next-ok g head 0 tail (omega (arith, levels)))
            (set_backward-ok _ tail head at_tail),
        record {
          holds = record {
            head_entry = blank;
            tail_entry = blank;
            head_is = at_head;
            tail_is = at_tail;
            head_levels = omega (arith, levels);
            tail_levels = levels';
            tail_next = end;
            head_links = λ j lt.
                let zeroth : j ≡ 0 = omega arith in
                (
                  ap ((created h blank head tail).next head) zeroth ∙ next,
                  ap ((created h blank head tail).span head) zeroth ∙ span,
                );
            chain = tt;
            backs = back;
            distinct = tt;
            not_head = refl;
            not_tail = refl;
            ends = ne;
            head_not_null = positive;
            tail_not_null = positive';
            heights = tt;
            counted = refl;
          };
          sorted = tt;
        },
      )
