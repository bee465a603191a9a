-- ===== src/SkipList/Layout.antt =====
-- src/SkipList.h, how a list of nodes lies in memory.
use redis_db.Prelude.{
  ℕ, suc, ◌≤◌, ◌<◌, ◌≡◌, ◌≢◌, false, some, List, [], ◌∷◌, ◌++◌, length, All, lt→ltb, ok,
}
use redis_db.SkipList.{Order, SkipList}
use redis_db.SkipList.Memory.{Heap, next_at, span_at, entry_at, backward_at}
use redis_db.SkipList.Towers.{Tower, next_of, span_of, has}

module _ {ℓ} {K V : Type ℓ} where
  -- The pointers and the spans of the node at `p`, on its lowest `n` levels, lead into `ts`.
  abbrev pub Linked : Heap K V → (tail p n : ℕ) → List (Tower K V) → Type 0
  Linked h tail p n ts =
      (j : ℕ) → j < n → (h.next p j ≡ next_of tail j ts) × (h.span p j ≡ span_of j ts)

  -- The node `t` lies in memory, in front of the nodes `ts`.
  pub record IsNode (h : Heap K V) (tail : ℕ) (t : Tower K V) (ts : List (Tower K V)) : Type ℓ where
    pub entry : h.entry t.address ≡ some (t.key, t.value)
    pub levels : h.levels t.address ≡ t.height
    pub positive : 1 ≤ t.height
    pub not_null : 1 ≤ t.address
    pub links : Linked h tail t.address t.height ts

  abbrev pub Chain : Heap K V → (tail : ℕ) → List (Tower K V) → Type ℓ
  Chain h tail [] = Unit
  Chain h tail (t ∷ ts) = IsNode h tail t ts × Chain h tail ts

  -- The backward pointers, from the node behind `prev` to the tail.
  abbrev pub Backs : Heap K V → (tail prev : ℕ) → List (Tower K V) → Type 0
  Backs h tail prev [] = h.backward tail ≡ prev
  Backs h tail prev (t ∷ ts) = (h.backward t.address ≡ prev) × Backs h tail t.address ts

  -- No two nodes stand at the same address.
  abbrev pub IsDistinct : List (Tower K V) → Type 0
  IsDistinct [] = Unit
  IsDistinct (t ∷ ts) = (has t.address ts ≡ false) × IsDistinct ts

  -- The list in memory, apart from the order of the keys.
  pub record Holds (h : Heap K V) (l : SkipList) (ts : List (Tower K V)) : Type ℓ where
    pub head_entry : K × V
    pub tail_entry : K × V
    pub head_is : h.entry l.head ≡ some head_entry
    pub tail_is : h.entry l.tail ≡ some tail_entry
    pub head_levels : l.max_level < h.levels l.head
    pub tail_levels : h.levels l.tail ≡ 1
    pub tail_next : h.next l.tail 0 ≡ 0
    pub head_links : Linked h l.tail l.head (suc l.max_level) ts
    pub chain : Chain h l.tail ts
    pub backs : Backs h l.tail l.head ts
    pub distinct : IsDistinct ts
    pub not_head : has l.head ts ≡ false
    pub not_tail : has l.tail ts ≡ false
    pub ends : l.head ≢ l.tail
    pub head_not_null : 1 ≤ l.head
    pub tail_not_null : 1 ≤ l.tail
    pub heights : All (λ (t : Tower K V). t.height ≤ suc l.max_level) ts
    pub counted : l.length ≡ length ts

  pub Chain-append :
      (h : Heap K V) (tail : ℕ) (c ts : List (Tower K V)) → Chain h tail (c ++ ts) → Chain h tail ts
  Chain-append h tail [] ts s = s
  Chain-append h tail (t ∷ c) ts s = Chain-append h tail c ts s.1

  pub next_at-ok : (h : Heap K V) (p i : ℕ) → i < h.levels p → next_at h p i ≡ ok (h.next p i)
  unfolding next_at
  next_at-ok h p i lt = rw (lt→ltb i (h.levels p) lt)

  pub span_at-ok : (h : Heap K V) (p i : ℕ) → i < h.levels p → span_at h p i ≡ ok (h.span p i)
  unfolding span_at
  span_at-ok h p i lt = rw (lt→ltb i (h.levels p) lt)

  pub entry_at-ok : (h : Heap K V) (p : ℕ) {e : K × V} → h.entry p ≡ some e → entry_at h p ≡ ok e
  unfolding entry_at
  entry_at-ok h p f = rw (f, entry_at)

  pub backward_at-ok :
      (h : Heap K V) (p : ℕ) {e : K × V} → h.entry p ≡ some e → backward_at h p ≡ ok (h.backward p)
  unfolding backward_at
  backward_at-ok h p f = rw (f, backward_at)

module _ {ℓ} {K V : Type ℓ} (order : Order K) where
  open order use {less}

  -- The keys do not fall.
  abbrev pub IsSorted : List (Tower K V) → Type 0
  IsSorted [] = Unit
  IsSorted (t ∷ ts) = All (λ (u : Tower K V). less u.key t.key ≡ false) ts × IsSorted ts

  -- A skip list in memory.
  pub record IsSkipList (h : Heap K V) (l : SkipList) (ts : List (Tower K V)) : Type ℓ where
    pub holds : Holds h l ts
    pub sorted : IsSorted ts
