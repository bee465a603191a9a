-- ===== src/Hash/Lookup.antt =====
-- src/hash.h, the searches of `Hash::isExist` and `HashMap::get`.
use mathlib.Core.Option.{or_else}
use redis_db.Prelude.{
  ℕ, ◌+◌, ◌-◌, ◌^◌, ◌≤◌, ◌≡◌, sym, ap, ◌∙◌, ◌⊎◌, inl, inr, Bool, true, Option, none, some, arith,
  word, count_if, count_if-get_or-le, to_nat, ok, Option-cases, is_some,
}
use redis_db.Traits.{Traits, slot}
use redis_db.Table.{HashNode, HashTable, find}
use redis_db.Table.Chains.{holds_key, find-eq-some, count_if-eq-zero}
use redis_db.Table.Bags.{bucket, contents, count_if-bucket, get-find, is_exist-find}
use redis_db.Hash.{Hash}
use redis_db.Hash.Operations.{active_index, is_exist_at, get_at}
use redis_db.Hash.Valid.{
  slot-lt, IsHome, IsResting, IsMoving, IsValid, count, count-resting, count-moving,
}
use redis_db.Hash.Advance.{moving-is_rehashing, resting-is_rehashing}

module _ {ℓ} {T K : Type ℓ} (traits : Traits T K) where
  -- What a search for `k` may answer, given how many nodes pass each test: `none` when no node has
  -- the key, and otherwise a node with the key that is one of them.
  abbrev pub Answers : K → ((HashNode T → Bool) → ℕ) → Option (HashNode T) → Type ℓ
  Answers k counts o =
      ((o ≡ none) × (counts (holds_key traits k) ≡ 0))
      ⊎ ((n : HashNode T) × (o ≡ some n)
          × (holds_key traits k n ≡ true)
          × ((p : HashNode T → Bool) → to_nat (p n) ≤ counts p))

  -- A search of one table.
  pub find-Answers :
      (t : HashTable T) (k : K)
      → IsHome traits t
      → Answers k
          (λ p. count_if p (contents t))
          (find traits k (bucket t (slot traits (t.buckets_number - 1) k)))
  find-Answers t k v =
      let i = slot traits (t.buckets_number - 1) k in
      elim (Option-cases (find traits k (bucket t i))) [
        | inl e ↦ inl (
          e,
          omega (
            arith,
            count_if-eq-zero traits k (bucket t i) e,
            count_if-bucket traits (t.buckets_number - 1) t k v.placed,
          ),
        )
        | inr (n, e) ↦
            let (key, _, member) = find-eq-some traits k (bucket t i) n e in
            inr (n, e, key, λ p. omega (arith, member p, count_if-get_or-le p t.nodes i))
      ]

  -- The counts may be written in another way.
  pub Answers-congr :
      (k : K) (o : Option (HashNode T)) {f g : (HashNode T → Bool) → ℕ}
      → ((p : HashNode T → Bool) → f p ≡ g p)
      → Answers k f o
      → Answers k g o
  Answers-congr k o e (inl (a, z)) = inl (a, sym (e _) ∙ z)
  Answers-congr k o e (inr (n, a, key, member)) = inr (n, a, key, λ p. rw (← e p) (member p))

  pub active_index-slot :
      (h : Hash T) (k : K)
      → IsHome traits h.active
      → active_index traits h k ≡ slot traits (h.active.buckets_number - 1) k
  unfolding active_index
  active_index-slot h k v =
      let e : word (h.active.buckets_number + (2 ^ 64 - 1)) ≡ h.active.buckets_number - 1 =
        omega (arith, v.power, v.small) in
      rw e

  -- The node under a key in one table, looked for in the bucket of the key.
  abbrev pub find_in : HashTable T → K → Option (HashNode T)
  find_in t k = find traits k (bucket t (slot traits (t.buckets_number - 1) k))

  -- The search in the backup and then in the active table.
  pub search : Hash T → K → Option (HashNode T)
  unfolding or_else
  search h k = elim h.backup [
    | none ↦ find_in h.active k
    | some b ↦ or_else (find_in b k) (find_in h.active k)
  ]

  pub search-resting : {h : Hash T} (k : K) → IsResting traits h → search h k ≡ find_in h.active k
  unfolding search
  search-resting k v = rw v.single

  pub search-moving :
      {h : Hash T} {b : HashTable T} (k : K)
      → IsMoving traits h b
      → search h k ≡ or_else (find_in b k) (find_in h.active k)
  unfolding search
  search-moving k m = rw m.backup

  or_else-Answers :
      (k : K) (o u : Option (HashNode T)) (f g : (HashNode T → Bool) → ℕ)
      → Answers k f o
      → Answers k g u
      → Answers k (λ p. g p + f p) (or_else o u)
  unfolding or_else
  or_else-Answers k o u f g (inr (n, a, key, member)) _ =
      inr (n, rw a, key, λ p. omega (arith, member p))
  or_else-Answers k o u f g (inl (a, z)) (inl (c, y)) = inl (rw a c, omega arith)
  or_else-Answers k o u f g (inl (a, z)) (inr (n, c, key, member)) =
      inr (n, rw a c, key, λ p. omega (arith, member p))

  -- The search finds a node with the key, if there is one.
  pub search-Answers :
      (h : Hash T) (k : K) → IsValid traits h → Answers k (λ p. count p h) (search h k)
  search-Answers h k (inl v) =
      rw (search-resting k v)
        (Answers-congr k _ (λ p. sym (count-resting traits p v)) (find-Answers h.active k v.home))
  search-Answers h k (inr (b, m, lt)) = rw (search-moving k m) (
      Answers-congr k _ (λ p. sym (count-moving traits p m))
        (or_else-Answers k _ _ _ _ (find-Answers b k m.new_home) (find-Answers h.active k m.home)))

  -- Both searches of the source are that search, if they are given the bucket of the key.
  pub get_at-search :
      (h : Hash T) (index : ℕ) (k : K)
      → IsValid traits h
      → index ≡ slot traits h.buckets_mask k
      → get_at traits h index k ≡ ok (search h k)
  unfolding get_at or_else
  get_at-search h index k (inl v) e =
      let here = e ∙ ap (λ m. slot traits m k) v.mask in
      rw (resting-is_rehashing traits v, here, search-resting k v)
        (get-find traits h.active _ k v.home.table (slot-lt _ v.home.power))
  get_at-search h index k (inr (b, m, lt)) e =
      let here = e ∙ ap (λ n. slot traits n k) m.mask in
      let new =
        get-find traits b _ k m.new_home.table (slot-lt (traits.hasher k) m.new_home.power) in
      let old =
        get-find traits h.active _ k m.home.table (slot-lt (traits.hasher k) m.home.power) in
      rw (search-moving k m, moving-is_rehashing traits m lt, m.backup, here)
        (elim (Option-cases (find_in b k)) [
          | inl none_new ↦ rw (new, none_new, active_index-slot h k m.home) old
          | inr (n, some_new) ↦ rw (new, some_new)
        ])

  pub is_exist_at-search :
      (h : Hash T) (index : ℕ) (k : K)
      → IsValid traits h
      → index ≡ slot traits h.buckets_mask k
      → is_exist_at traits h index k ≡ ok (is_some (search h k))
  unfolding is_exist_at or_else
  is_exist_at-search h index k (inl v) e =
      let here = e ∙ ap (λ m. slot traits m k) v.mask in
      rw (
        resting-is_rehashing traits v,
        here,
        search-resting k v,
        is_exist-find traits h.active _ k (slot-lt (traits.hasher k) v.home.power),
      )
  is_exist_at-search h index k (inr (b, m, lt)) e =
      let here = e ∙ ap (λ n. slot traits n k) m.mask in
      rw
        (
          search-moving k m,
          moving-is_rehashing traits m lt,
          m.backup,
          here,
          active_index-slot h k m.home,
          is_exist-find traits b _ k (slot-lt (traits.hasher k) m.new_home.power),
          is_exist-find traits h.active _ k (slot-lt (traits.hasher k) m.home.power),
        )
        (elim (Option-cases (find_in b k)) [ inl e ↦ rw e | inr (n, e) ↦ rw e ])
