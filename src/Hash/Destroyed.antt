-- ===== src/Hash/Destroyed.antt =====
-- src/hash.h, the destructors of `HashTable` and of `Hash`: the addresses of the nodes that they
-- delete, in their order.
use redis_db.Prelude.{
  ℕ, zero, suc, ◌+◌, ◌^◌, ◌<◌, ◌≡◌, refl, sym, ap, subst, ◌∙◌, Bool, none, some, inl, inr, List, [],
  ◌∷◌, ◌++◌, arith, length, get_or, drop, drop-get_or, drop-all, if◌then◌else◌, ltb, lt→ltb, ◌==◌,
  count_if, count_if-append, flatten, Run, ok, undefined, ◌>>=◌, Returns,
}
use redis_db.Traits.{Traits}
use redis_db.Table.{HashNode, Chain, HashTable}
use redis_db.Table.Bags.{contents, IsTable}
use redis_db.Hash.{Hash}
use redis_db.Hash.Valid.{IsValid, count, count-resting, count-moving}

module _ {ℓ} {T : Type ℓ} where
  -- The loop over a chain.
  unfoldable pub delete_chain : Chain T → List ℕ
  delete_chain [] = []
  delete_chain (head ∷ next) = head.address ∷ delete_chain next

  -- The loop over the buckets, with `rounds` of them left.
  unfoldable pub delete_buckets : List (Chain T) → (rounds i : ℕ) → Run (List ℕ)
  unfolding delete_chain
  delete_buckets nodes zero i = ok []
  delete_buckets nodes (suc rounds) i =
      let rest = delete_buckets nodes rounds (i + 1) in
      if ltb i (length nodes)
      then (do freed ← rest; ok (delete_chain (get_or nodes i []) ++ freed))
      else undefined

  -- The counter is an `int`, which overflows from 2 ^ 31 buckets on.
  unfoldable pub destroy_table : HashTable T → Run (List ℕ)
  unfolding delete_buckets
  destroy_table t =
      if ltb t.buckets_number (2 ^ 31) then delete_buckets t.nodes t.buckets_number 0 else undefined

  unfoldable pub destroy_hash : Hash T → Run (List ℕ)
  unfolding destroy_table
  destroy_hash h = do
    freed ← destroy_table h.active
    elim h.backup [ none ↦ ok freed | some b ↦ do others ← destroy_table b; ok (freed ++ others) ]

  -- The node stands at the address.
  abbrev pub stands_at : ℕ → HashNode T → Bool
  stands_at a n = n.address == a

  -- The addresses are those of the nodes, each as often.
  abbrev pub FreesAll : List (HashNode T) → List ℕ → Type 0
  FreesAll ns freed = (a : ℕ) → count_if (λ x. x == a) freed ≡ count_if (stands_at a) ns

  delete_chain-FreesAll : (c : Chain T) → FreesAll c (delete_chain c)
  unfolding delete_chain count_if
  delete_chain-FreesAll [] a = refl
  delete_chain-FreesAll (n ∷ c) a = omega (arith, delete_chain-FreesAll c a)

  append-FreesAll :
      (xs ys : List (HashNode T)) (fs gs : List ℕ)
      → FreesAll xs fs
      → FreesAll ys gs
      → FreesAll (xs ++ ys) (fs ++ gs)
  append-FreesAll xs ys fs gs f g a =
      omega
        (arith, count_if-append (λ x. x == a) fs gs, count_if-append (stands_at a) xs ys, f a, g a)

  no_nodes : (nodes : List (Chain T)) → nodes ≡ [] → FreesAll (flatten nodes) []
  unfolding flatten count_if
  no_nodes nodes e = subst (λ cs. FreesAll (flatten cs) []) (sym e) (λ a. refl)

  delete_buckets-run :
      (nodes : List (Chain T)) (rounds i : ℕ) (freed : List ℕ)
      → i < length nodes
      → delete_buckets nodes rounds (i + 1) ≡ ok freed
      → delete_buckets nodes (suc rounds) i ≡ ok (delete_chain (get_or nodes i []) ++ freed)
  unfolding delete_buckets
  delete_buckets-run nodes rounds i freed lt e = rw (lt→ltb i (length nodes) lt, e) refl

  delete_buckets-FreesAll :
      (nodes : List (Chain T)) (rounds i : ℕ)
      → i + rounds ≡ length nodes
      → Returns (delete_buckets nodes rounds i) (FreesAll (flatten (drop i nodes)))
  unfolding delete_buckets flatten
  delete_buckets-FreesAll nodes zero i e =
      ([], refl, no_nodes (drop i nodes) (drop-all nodes i (omega arith)))
  delete_buckets-FreesAll nodes (suc rounds) i e =
      let (freed, run, all) = delete_buckets-FreesAll nodes rounds (i + 1) (omega arith) in
      let lt : i < length nodes = omega arith in
      let next : i + 1 ≡ suc i = omega arith in
      let c = get_or nodes i [] in
      (
        delete_chain c ++ freed,
        delete_buckets-run nodes rounds i freed lt run,
        λ a.
            append-FreesAll c (flatten (drop (i + 1) nodes)) (delete_chain c) freed
              (delete_chain-FreesAll c) all a
            ∙ ap (λ n. count_if (stands_at a) (c ++ flatten (drop n nodes))) next
            ∙ ap (λ ns. count_if (stands_at a) (flatten ns)) (sym (drop-get_or nodes i [] lt)),
      )

  destroy_table-run :
      (t : HashTable T) (freed : List ℕ)
      → t.buckets_number < 2 ^ 31
      → delete_buckets t.nodes t.buckets_number 0 ≡ ok freed
      → destroy_table t ≡ ok freed
  unfolding destroy_table
  destroy_table-run t freed lt e = rw (lt→ltb t.buckets_number (2 ^ 31) lt, e) refl

  destroy_table-FreesAll :
      (t : HashTable T)
      → IsTable t
      → t.buckets_number < 2 ^ 31
      → Returns (destroy_table t) (FreesAll (contents t))
  unfolding drop
  destroy_table-FreesAll t e lt =
      let (freed, run, all) =
        delete_buckets-FreesAll t.nodes t.buckets_number 0 (omega (arith, e)) in
      (freed, destroy_table-run t freed lt run, all)

  destroy_hash-single :
      (h : Hash T) (freed : List ℕ)
      → h.backup ≡ none
      → destroy_table h.active ≡ ok freed
      → destroy_hash h ≡ ok freed
  unfolding destroy_hash
  destroy_hash-single h freed e f = rw (destroy_hash, f, e) refl

  destroy_hash-double :
      (h : Hash T) (b : HashTable T) (freed others : List ℕ)
      → h.backup ≡ some b
      → destroy_table h.active ≡ ok freed
      → destroy_table b ≡ ok others
      → destroy_hash h ≡ ok (freed ++ others)
  unfolding destroy_hash
  destroy_hash-double h b freed others e f g = rw (destroy_hash, f, e, g) refl

module _ {ℓ} {T K : Type ℓ} (traits : Traits T K) where
  -- The destructor of a valid hash, also while a rehash is going on, runs to an end without undefined
  -- behaviour, and deletes at each address as often as the hash has a node there: every node just
  -- once, where no two stand at the same address.
  pub destroy_hash-count :
      (h : Hash T)
      → IsValid traits h
      → Returns
          (destroy_hash h)
          λ freed. (a : ℕ) → count_if (λ x. x == a) freed ≡ count (λ n. n.address == a) h
  destroy_hash-count h (inl s) =
      let (freed, run, all) = destroy_table-FreesAll h.active s.home.table s.home.small in
      (
        freed,
        destroy_hash-single h freed s.single run,
        λ a. all a ∙ sym (count-resting traits (stands_at a) s),
      )
  destroy_hash-count h (inr (b, s, lt)) =
      let (freed, run, all) = destroy_table-FreesAll h.active s.home.table s.home.small in
      let (others, run', all') = destroy_table-FreesAll b s.new_home.table s.new_home.small in
      (
        freed ++ others,
        destroy_hash-double h b freed others s.backup run run',
        λ a.
            append-FreesAll (contents h.active) (contents b) freed others all all' a
            ∙ count_if-append (stands_at a) (contents h.active) (contents b)
            ∙ sym (count-moving traits (stands_at a) s),
      )
