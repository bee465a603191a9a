-- ===== src/SkipList/Erase/Run.antt =====
-- src/SkipList.h, `erase` as a whole.
use redis_db.Prelude.{
  ℕ, ◌+◌, ◌^◌, ◌<◌, ◌≡◌, ◌≢◌, refl, sym, ap, subst, ◌∙◌, Bool, true, false, not, List, [], ◌∷◌,
  ◌++◌, arith, length, length-append, All, if◌then◌else◌, lt→ltb, ◌==◌, ≡→==, ≢→==, Bool-cases, inl,
  inr, Run, ok, ◌>>=◌, Returns,
}
use redis_db.SkipList.{
  Order, SkipList, Descent, descend, unlink_levels, lower_level, erase_node, erase,
}
use redis_db.SkipList.Memory.{Heap, int_sub, next_at, entry_at, set_backward}
use redis_db.SkipList.Towers.{Tower, next_of, has-append}
use redis_db.SkipList.Layout.{Holds, IsSkipList, next_at-ok, entry_at-ok, Chain-append}
use redis_db.SkipList.Search.{descend-Finds}
use redis_db.SkipList.Search.Found.{found-prev, found-node}
use redis_db.SkipList.Ends.{head-Leads}
use redis_db.SkipList.Split.{from, from-IsMonotone, split}
use redis_db.SkipList.Reads.{member, member-append}
use redis_db.SkipList.Between.{IsSorted-without}
use redis_db.SkipList.Backward.{pointed_back, set_backward-ok, next_of-entry}
use redis_db.SkipList.Insert.Linked.{IsFound}
use redis_db.SkipList.Unlink.{lower_level-Returns}
use redis_db.SkipList.Erase.Spliced.{unlink_levels-IsUnlinked}
use redis_db.SkipList.Erase.Lowered.{erased-Holds}
use redis_db.SkipList.Erase.Listed.{
  erased, erased-absent, erased-present, member-less, member-other, IsSorted-last,
}

module _ {ℓ} {K V : Type ℓ} where
  erase_node-run :
      (h : Heap K V) (l : SkipList) (d : Descent) (node : ℕ) (g g' : Heap K V) (after m : ℕ)
      → unlink_levels node d (l.max_level + 1) 0 h ≡ ok g
      → next_at g node 0 ≡ ok after
      → set_backward g after (d.prevs 0) ≡ ok g'
      → lower_level l.head l.tail l.max_level g' ≡ ok m
      → erase_node h l d node ≡ ok (g', record l { max_level = m; length = int_sub l.length 1 })
  unfolding erase_node
  erase_node-run h l d node g g' after m e1 e2 e3 e4 = rw (e1, e2, e3, e4)

module _ {ℓ} {K V : Type ℓ} (order : Order K) where
  open order use {less, equal, equal_iff, less_of_not_less}

  abbrev absent_at : Heap K V → SkipList → K → ℕ → Run Bool
  absent_at h l k p = if p == l.tail then ok true else (do e ← entry_at h p; ok (not (equal e.0 k)))

  absent_at-tail : (h : Heap K V) (l : SkipList) (k : K) → absent_at h l k l.tail ≡ ok true
  absent_at-tail h l k = rw (≡→== l.tail l.tail refl) refl

  absent_at-node :
      (h : Heap K V) (l : SkipList) (k : K) (p : ℕ) (e : K × V)
      → p ≢ l.tail
      → entry_at h p ≡ ok e
      → absent_at h l k p ≡ ok (not (equal e.0 k))
  absent_at-node h l k p e ne f = rw (≢→== p l.tail ne, f) refl

  erase-absent :
      (h : Heap K V) (l : SkipList) (k : K) (d : Descent) (p : ℕ)
      → descend l (λ key. not (less key k)) h ≡ ok d
      → next_at h d.node 0 ≡ ok p
      → absent_at h l k p ≡ ok true
      → erase order h l k ≡ ok (false, h, l)
  unfolding erase
  erase-absent h l k d p e1 e2 e3 = rw (e1, e2, e3)

  erase-present :
      (h : Heap K V) (l : SkipList) (k : K) (d : Descent) (p : ℕ) (r : Heap K V × SkipList)
      → descend l (λ key. not (less key k)) h ≡ ok d
      → next_at h d.node 0 ≡ ok p
      → absent_at h l k p ≡ ok false
      → erase_node h l d p ≡ ok r
      → erase order h l k ≡ ok (true, r.0, r.1)
  unfolding erase
  erase-present h l k d p r e1 e2 e3 e4 = rw (e1, e2, e3, e4)

  -- What `erase` behind the test does to the node `t`.
  erase_node-IsSkipList :
      (h : Heap K V) (l : SkipList) (b a : List (Tower K V)) (t : Tower K V) (d : Descent)
      → IsSkipList order h l (b ++ (t ∷ a))
      → IsFound l b d
      → length (b ++ (t ∷ a)) < 2 ^ 31
      → Returns (erase_node h l d t.address) (λ r. IsSkipList order r.0 r.1 (b ++ a))
  erase_node-IsSkipList h l b a t d s found small =
      let (g, run, out) = unlink_levels-IsUnlinked h l b a t d s.holds found small in
      let linked = out.linked in
      let (node, _) = Chain-append h l.tail b (t ∷ a) s.holds.chain in
      let after : next_at g t.address 0 ≡ ok (next_of l.tail 0 a) =
        next_at-ok g t.address 0
          (omega (arith, linked.levels t.address, node.levels, node.positive))
        ∙ ap ok out.node_next in
      let (entry, at_after) =
        next_of-entry g l.tail 0 a (linked.entry l.tail ∙ s.holds.tail_is)
          (Chain-append g l.tail b a linked.chain) in
      let g' = pointed_back g (next_of l.tail 0 a) (d.prevs 0) in
      let (m, run', (le, empty)) =
        lower_level-Returns l.head l.tail l.max_level g'
          (omega (arith, linked.levels l.head, s.holds.head_levels)) in
      let counted = s.holds.counted in
      (
        _,
        erase_node-run h l d t.address g g' (next_of l.tail 0 a) m run after
            (set_backward-ok g (next_of l.tail 0 a) (d.prevs 0) at_after) run',
        record {
          holds =
              erased-Holds h g l b a t (d.prevs 0) m (int_sub l.length 1) s.holds linked
                (found 0 (omega arith)).0 le empty
                (omega (arith, counted, length-append b (t ∷ a)));
          sorted = IsSorted-without order b t a s.sorted;
        },
      )

  -- `erase` of a list that is split where the walk stops.
  erase-split :
      (h : Heap K V) (l : SkipList) (b a : List (Tower K V)) (k : K) (d : Descent)
      → IsSkipList order h l (b ++ a)
      → All (λ (t : Tower K V). from order k t.key ≡ false) b
      → All (λ (t : Tower K V). from order k t.key ≡ true) a
      → length (b ++ a) < 2 ^ 31
      → descend l (λ key. not (less key k)) h ≡ ok d
      → next_at h d.node 0 ≡ ok (next_of l.tail 0 a)
      → IsFound l b d
      → Returns (erase order h l k) (λ r.
        (r.0 ≡ member order k (b ++ a)) × IsSkipList order r.1 r.2 (erased order k (b ++ a)))
  erase-split h l b [] k d s miss hit small run next found =
      let nobody : member order k (b ++ []) ≡ false =
        member-append order k b [] ∙ ground (arith, member-less order k b miss) in
      (
        (false, h, l),
        erase-absent h l k d l.tail run next (absent_at-tail h l k),
        (sym nobody, subst (IsSkipList order h l) (sym (erased-absent order k (b ++ []) nobody)) s),
      )
  erase-split h l b (t ∷ a) k d s miss hit small run next found =
      let (node, _) = Chain-append h l.tail b (t ∷ a) s.holds.chain in
      let not_tail = s.holds.not_tail in
      let ne : t.address ≢ l.tail = ground (arith, has-append l.tail b (t ∷ a)) in
      let first : next_of l.tail 0 (t ∷ a) ≡ t.address =
        ap (λ x. if x then t.address else next_of l.tail 0 a) (lt→ltb 0 t.height node.positive) in
      let next' = next ∙ ap ok first in
      let test =
        absent_at-node h l k t.address (t.key, t.value) ne (entry_at-ok h t.address node.entry) in
      elim (Bool-cases (equal t.key k)) [
        | inl e ↦
            let (r, run', after) = erase_node-IsSkipList h l b a t d s found small in
            let there : member order k (b ++ (t ∷ a)) ≡ true =
              ground (arith, member-append order k b (t ∷ a)) in
            (
              (true, r.0, r.1),
              erase-present h l k d t.address r run next' (test ∙ ap (λ x. ok (not x)) e) run',
              (
                sym there,
                subst (IsSkipList order r.0 r.1)
                    (sym (erased-present order k b t a (member-less order k b miss) e)) after,
              ),
            )
        | inr e ↦
            let nobody =
              member-other order k b t a miss hit.0 e (IsSorted-last order b t a s.sorted) in
            (
              (false, h, l),
              erase-absent h l k d t.address run next' (test ∙ ap (λ x. ok (not x)) e),
              (
                sym nobody,
                subst (IsSkipList order h l) (sym (erased-absent order k (b ++ (t ∷ a)) nobody)) s,
              ),
            )
      ]

  -- On a skip list with less than 2 ^ 31 nodes, `erase` runs without undefined behaviour to an end.
  -- It answers whether some node has the key, and leaves a skip list without the first such node,
  -- with all pointers, spans and backward pointers right, and otherwise as before.
  pub erase-IsSkipList :
      (h : Heap K V) (l : SkipList) (ts : List (Tower K V)) (k : K)
      → IsSkipList order h l ts
      → length ts < 2 ^ 31
      → Returns
          (erase order h l k)
          (λ r. (r.0 ≡ member order k ts) × IsSkipList order r.1 r.2 (erased order k ts))
  erase-IsSkipList h l ts k s small =
      let (b, a, whole, miss, hit) =
        split order (from order k) ts (from-IsMonotone order k) s.sorted in
      let size = ap length whole ∙ length-append b a in
      let holds = subst (Holds h l) whole s.holds in
      let (d, run, found) = descend-Finds h l (from order k) b a holds miss hit (omega arith) in
      let (at, _) = found-node l.tail (from order k) h found (omega arith) in
      let led = head-Leads h l b a 0 holds (omega arith) in
      let next : next_at h d.node 0 ≡ ok (next_of l.tail 0 a) =
        ap (λ p. next_at h p 0) at ∙ next_at-ok h _ 0 led.level ∙ ap ok led.next in
      let split_list = subst (IsSkipList order h l) whole s in
      subst
        (λ xs.
          Returns (erase order h l k)
            (λ r. (r.0 ≡ member order k xs) × IsSkipList order r.1 r.2 (erased order k xs)))
        (sym whole)
        (erase-split h l b a k d split_list miss hit (omega (arith, ap length whole)) run next
          (found-prev l.tail (from order k) h found))
