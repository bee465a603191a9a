-- ===== src/SkipList/Insert/Finished.antt =====
-- src/SkipList.h, the end of `insert`: the backward pointers of the new node and of the one behind
-- it.
use redis_db.Prelude.{
  ℕ, suc, ◌≤◌, ◌≡◌, ◌≢◌, refl, sym, ap, ◌∙◌, false, List, ◌∷◌, ◌++◌, arith, length, if◌then◌else◌,
  ≡→==, ≢→==,
}
use redis_db.SkipList.{SkipList}
use redis_db.SkipList.Memory.{Heap}
use redis_db.SkipList.Towers.{Tower, next_of, prev_of, has, has-append}
use redis_db.SkipList.Layout.{Chain, Backs, IsDistinct, Holds, Chain-append}
use redis_db.SkipList.Frame.{Backs-frame, BacksIn-frame, Backs-append, append-Backs}
use redis_db.SkipList.Between.{
  has-between, All-between, IsDistinct-between, IsDistinct-append, length-between,
}
use redis_db.SkipList.Backward.{
  pointed_back, next_of-has, next_of-apart, Chain-pointed_back, Backs-pointed_back,
}
use redis_db.SkipList.Insert.Linked.{IsReady, IsLinked}

module _ {ℓ} {K V : Type ℓ} where
  -- The memory at the end of `insert`.
  abbrev pub finished : Heap K V → (fresh prev after : ℕ) → Heap K V
  finished h fresh prev after = pointed_back (pointed_back h fresh prev) after fresh

  finished-backward :
      (h : Heap K V) (fresh prev after q : ℕ)
      → q ≢ fresh
      → q ≢ after
      → (finished h fresh prev after).backward q ≡ h.backward q
  finished-backward h fresh prev after q ne ne' = rw (≢→== q fresh ne, ≢→== q after ne') refl

  finished-fresh :
      (h : Heap K V) (fresh prev after : ℕ)
      → after ≢ fresh
      → (finished h fresh prev after).backward fresh ≡ prev
  finished-fresh h fresh prev after ne =
      rw (≢→== fresh after (λ e. ne (sym e)), ≡→== fresh fresh refl) refl

  -- The backward pointers of the whole list.
  finished-Backs :
      (h : Heap K V) (tail p : ℕ) (b a : List (Tower K V)) (t : Tower K V) (prev : ℕ)
      → Backs h tail p (b ++ a)
      → Chain h tail (b ++ a)
      → has t.address (b ++ a) ≡ false
      → has tail (b ++ a) ≡ false
      → tail ≢ t.address
      → IsDistinct (b ++ a)
      → prev ≡ prev_of 0 p b
      → (g : Heap K V) → ((q : ℕ) → g.backward q ≡ h.backward q)
      → Chain g tail (b ++ (t ∷ a))
      → Backs (finished g t.address prev (next_of tail 0 a)) tail p (b ++ (t ∷ a))
  finished-Backs h tail p b a t prev s c out out' ne distinct e g back d =
      let after = next_of tail 0 a in
      let g' = pointed_back g t.address prev in
      let end = finished g t.address prev after in
      let (in_b, backs) = Backs-append h tail p b a c s in
      let (_, distinct_a, apart) = IsDistinct-append b a distinct in
      let out_b : has t.address b ≡ false = ground (arith, has-append t.address b a) in
      let out_a : has t.address a ≡ false = ground (arith, has-append t.address b a) in
      let tail_b : has tail b ≡ false = ground (arith, has-append tail b a) in
      let tail_a : has tail a ≡ false = ground (arith, has-append tail b a) in
      let chain =
        Chain-pointed_back g' tail after t.address (b ++ (t ∷ a))
          (Chain-pointed_back g tail t.address prev (b ++ (t ∷ a)) d) in
      let behind : Chain g' tail a =
        (Chain-append g' tail b (t ∷ a)
          (Chain-pointed_back g tail t.address prev (b ++ (t ∷ a)) d)).1 in
      append-Backs end tail p b (t ∷ a) chain
        (BacksIn-frame h end p t.address after b
          (λ q ne ne'. finished-backward g t.address prev after q ne ne' ∙ back q) out_b
          (next_of-apart tail 0 a b tail_b apart) in_b)
        (
          finished-fresh g t.address prev after (next_of-has tail 0 a t.address ne out_a) ∙ e,
          Backs-pointed_back g' tail (prev_of 0 p b) t.address a behind distinct_a tail_a (
              Backs-frame h g' tail (prev_of 0 p b) t.address a
                (λ q ne. ap (λ x. if x then prev else g.backward q) (≢→== q t.address ne) ∙ back q)
                out_a ne backs),
        )

  -- The list holds, with the node in its place.
  pub finished-Holds :
      (h g : Heap K V) (l : SkipList) (b a : List (Tower K V)) (t : Tower K V) (level prev size : ℕ)
      → Holds h l (b ++ a)
      → IsReady h l level t (b ++ a)
      → IsLinked h g l (b ++ (t ∷ a))
      → prev ≡ prev_of 0 l.head b
      → size ≡ suc (length (b ++ a))
      → Holds
          (finished g t.address prev (next_of l.tail 0 a))
          (record l { length = size })
          (b ++ (t ∷ a))
  finished-Holds h g l b a t level prev size s ready linked e counted =
      let after = next_of l.tail 0 a in
      let g' = pointed_back g t.address prev in
      record {
        head_entry = s.head_entry;
        tail_entry = s.tail_entry;
        head_is = linked.entry l.head ∙ s.head_is;
        tail_is = linked.entry l.tail ∙ s.tail_is;
        head_levels = omega (arith, linked.levels l.head, s.head_levels);
        tail_levels = linked.levels l.tail ∙ s.tail_levels;
        tail_next = linked.tail_next ∙ s.tail_next;
        head_links = linked.head_links;
        chain =
            Chain-pointed_back g' l.tail after t.address (b ++ (t ∷ a))
              (Chain-pointed_back g l.tail t.address prev (b ++ (t ∷ a)) linked.chain);
        backs =
            finished-Backs h l.tail l.head b a t prev s.backs s.chain ready.out s.not_tail
              ready.not_tail s.distinct e g linked.backward linked.chain;
        distinct = IsDistinct-between b t a s.distinct ready.out;
        not_head = has-between l.head b t a s.not_head (λ e. ready.not_head (sym e));
        not_tail = has-between l.tail b t a s.not_tail (λ e. ready.not_tail (sym e));
        ends = s.ends;
        head_not_null = s.head_not_null;
        tail_not_null = s.tail_not_null;
        heights =
            All-between (λ (t : Tower K V). t.height ≤ suc l.max_level) b t a s.heights
              (omega (arith, ready.top, ready.room));
        counted = counted ∙ sym (length-between b t a);
      }
