-- ===== src/SkipList/Memory.antt =====
-- src/SkipList.h, the memory of `SkipListNode`: the fields of the node at each address. An address
-- without a node has no entry and no levels.
use redis_db.Prelude.{
  ℕ, ◌+◌, ◌-◌, ◌%◌, ◌^◌, ◌&&◌, Option, none, some, if◌then◌else◌, ltb, leb, ◌==◌, Run, ok,
  undefined,
}

-- `nullptr`
abbrev pub null : ℕ
null = 0

-- `int` as its 32 bits, the upper half negative.
abbrev pub int_add : ℕ → ℕ → ℕ
int_add a b = (a + b) % 2 ^ 32

abbrev pub int_sub : ℕ → ℕ → ℕ
int_sub a b = (a + 2 ^ 32 - b) % 2 ^ 32

-- The value of a function at one point, or at one pair, replaced.
abbrev pub update {ℓ} : {A : Type ℓ} → (ℕ → A) → ℕ → A → ℕ → A
update f p v q = if q == p then v else f q

abbrev pub update_at : (ℕ → ℕ → ℕ) → ℕ → ℕ → ℕ → ℕ → ℕ → ℕ
update_at f p i v q j = if (q == p) && (j == i) then v else f q j

-- `entry` is the key and the value, `levels` the size of the vectors `mNexts` and `mSpans`.
pub record Heap {ℓ} (K V : Type ℓ) : Type ℓ where
  pub entry : ℕ → Option (K × V)
  pub levels : ℕ → ℕ
  pub next : ℕ → ℕ → ℕ
  pub span : ℕ → ℕ → ℕ
  pub backward : ℕ → ℕ

module _ {ℓ} {K V : Type ℓ} where
  -- `new SkipListNode(k, v)` at the address `p`.
  unfoldable pub new_node : Heap K V → ℕ → K → V → Heap K V
  new_node h p k v = record h {
    entry = update h.entry p (some (k, v));
    levels = update h.levels p 0;
    backward = update h.backward p null;
  }

  -- `setLevelNum`: both vectors are resized, and their new elements are `nullptr` and 0.
  unfoldable pub set_level_num : Heap K V → ℕ → ℕ → Heap K V
  set_level_num h p l = record h {
    levels = update h.levels p l;
    next = λ q i. if (q == p) && leb (h.levels p) i then null else h.next q i;
    span = λ q i. if (q == p) && leb (h.levels p) i then 0 else h.span q i;
  }

  -- `p->mNexts[i]`, undefined outside the vector.
  unfoldable pub next_at : Heap K V → ℕ → ℕ → Run ℕ
  next_at h p i = if ltb i (h.levels p) then ok (h.next p i) else undefined

  unfoldable pub span_at : Heap K V → ℕ → ℕ → Run ℕ
  span_at h p i = if ltb i (h.levels p) then ok (h.span p i) else undefined

  unfoldable pub set_next : Heap K V → ℕ → ℕ → ℕ → Run (Heap K V)
  set_next h p i q =
      if ltb i (h.levels p) then ok (record h { next = update_at h.next p i q }) else undefined

  unfoldable pub set_span : Heap K V → ℕ → ℕ → ℕ → Run (Heap K V)
  set_span h p i s =
      if ltb i (h.levels p) then ok (record h { span = update_at h.span p i s }) else undefined

  -- `p->mKey` and `p->mValue`, undefined where no node is.
  unfoldable pub entry_at : Heap K V → ℕ → Run (K × V)
  entry_at h p = elim (h.entry p) [ none ↦ undefined | some e ↦ ok e ]

  unfoldable pub backward_at : Heap K V → ℕ → Run ℕ
  backward_at h p = elim (h.entry p) [ none ↦ undefined | some e ↦ ok (h.backward p) ]

  unfoldable pub set_backward : Heap K V → ℕ → ℕ → Run (Heap K V)
  set_backward h p q = elim (h.entry p) [
    | none ↦ undefined
    | some e ↦ ok (record h { backward = update h.backward p q })
  ]
