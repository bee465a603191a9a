-- ===== src/Hash/Iterator/Walk.antt =====
-- src/hash.h, the walk of the iterator over the nodes.
use mathlib.Core.List.{append_assoc}
use redis_db.Prelude.{
  ℕ, zero, suc, ◌+◌, ◌≤◌, ◌<◌, ◌≡◌, refl, ap, sym, ◌∙◌, ◌⊎◌, inl, inr, Bool-cases, true, false,
  List, [], ◌∷◌, ◌++◌, arith, length, drop, drop-get_or, drop-all, get_or, List-cases, flatten, leb,
  le→leb, if◌then◌else◌, ok, undefined, ◌==◌,
}
use redis_db.Table.{HashNode, Chain, HashTable, get_bucket_head}
use redis_db.Table.Bags.{bucket, IsTable, get_bucket_head-bucket}
use redis_db.Hash.Iterator.{skip_empty, search_bucket, locate_chain, locate}

module _ {ℓ} {T : Type ℓ} where
  -- The pointer is to the first of these nodes, or null if there are none.
  abbrev pub PointsTo : Chain T → List (HashNode T) → Type ℓ
  PointsTo c rest =
      ((c ≡ []) × (rest ≡ []))
      ⊎ ((m : HashNode T) × (d : Chain T) × (e : List (HashNode T)) × (c ≡ m ∷ d)
          × (rest ≡ (m ∷ d) ++ e))

  pub get_bucket_head-outside :
      (t : HashTable T) (i : ℕ) → t.buckets_number ≤ i → get_bucket_head t i ≡ []
  unfolding get_bucket_head
  get_bucket_head-outside t i h = rw (le→leb t.buckets_number i h)

  -- The guard that `cbegin` and `next` put before `getBucketHead` is its own.
  pub guarded :
      (t : HashTable T) (n i : ℕ)
      → n ≡ t.buckets_number
      → (if leb n i then [] else get_bucket_head t i) ≡ get_bucket_head t i
  unfolding get_bucket_head
  guarded t n i e =
      rw e (elim (Bool-cases (leb t.buckets_number i)) [ inl f ↦ rw f | inr f ↦ rw f ])

  flatten-drop :
      (t : HashTable T) (i : ℕ)
      → IsTable t
      → i < t.buckets_number
      → flatten (drop i t.nodes) ≡ bucket t i ++ flatten (drop (suc i) t.nodes)
  unfolding flatten
  flatten-drop t i w h = rw (drop-get_or t.nodes i [] (omega arith))

  skip_empty-next :
      (k : ℕ) (t : HashTable T) (i : ℕ)
      → get_bucket_head t i ≡ []
      → skip_empty (suc k) t i ≡ skip_empty k t (suc i)
  unfolding skip_empty
  skip_empty-next k t i e = rw (skip_empty, e)

  skip_empty-here :
      (k : ℕ) (t : HashTable T) (i : ℕ) {n : HashNode T} {c : Chain T}
      → get_bucket_head t i ≡ n ∷ c
      → skip_empty (suc k) t i ≡ i
  unfolding skip_empty
  skip_empty-here k t i e = rw (skip_empty, e)

  search_bucket-next :
      (k : ℕ) (t : HashTable T) (i : ℕ)
      → get_bucket_head t i ≡ []
      → search_bucket (suc k) t i ≡ search_bucket k t (suc i)
  unfolding search_bucket
  search_bucket-next k t i e = rw (search_bucket, e)

  search_bucket-here :
      (k : ℕ) (t : HashTable T) (i : ℕ) {n : HashNode T} {c : Chain T}
      → get_bucket_head t i ≡ n ∷ c
      → search_bucket (suc k) t i ≡ ok i
  unfolding search_bucket
  search_bucket-here k t i e = rw (search_bucket, e)

  -- The loop over empty buckets stops at the first node from its bucket on.
  pub skip_empty-points :
      (k : ℕ) (t : HashTable T) (i : ℕ)
      → IsTable t
      → i + k ≡ t.buckets_number
      → PointsTo (get_bucket_head t (skip_empty k t i)) (flatten (drop i t.nodes))
  unfolding skip_empty flatten
  skip_empty-points zero t i w e =
      rw (get_bucket_head-outside t i (omega arith), drop-all t.nodes i (omega arith))
        (inl (refl, refl))
  skip_empty-points (suc k) t i w e =
      let lt : i < t.buckets_number = omega arith in
      let split = flatten-drop t i w lt in
      let read = get_bucket_head-bucket t i lt in
      elim (List-cases (bucket t i)) [
        | inl f ↦
            rw (skip_empty-next k t i (read ∙ f), split, f)
              (skip_empty-points k t (suc i) w (omega arith))
        | inr (n, c, f) ↦
            rw (skip_empty-here k t i (read ∙ f), split, f) (inr (n, c, _, read ∙ f, refl))
      ]

  -- `begin` finds the same bucket where there is one,
  pub search_bucket-skip_empty :
      (k rounds : ℕ) (t : HashTable T) (i : ℕ)
      → IsTable t
      → i + k ≡ t.buckets_number
      → k ≤ rounds
      → (flatten (drop i t.nodes) ≡ []) ⊎ (search_bucket rounds t i ≡ ok (skip_empty k t i))
  unfolding skip_empty search_bucket flatten
  search_bucket-skip_empty zero rounds t i w e le = inl (rw (drop-all t.nodes i (omega arith)))
  search_bucket-skip_empty (suc k) zero t i w e le = absurd (omega arith)
  search_bucket-skip_empty (suc k) (suc rounds) t i w e le =
      let lt : i < t.buckets_number = omega arith in
      let split = flatten-drop t i w lt in
      let read = get_bucket_head-bucket t i lt in
      elim (List-cases (bucket t i)) [
        | inl f ↦
            rw
              (skip_empty-next k t i (read ∙ f), search_bucket-next rounds t i (read ∙ f), split, f)
              (search_bucket-skip_empty k rounds t (suc i) w (omega arith) (omega arith))
        | inr (n, c, f) ↦ inr (
            search_bucket-here rounds t i (read ∙ f)
            ∙ ap ok (sym (skip_empty-here k t i (read ∙ f))))
      ]

  -- and runs until its counter overflows where there is none.
  pub search_bucket-undefined :
      (rounds : ℕ) (t : HashTable T) (i : ℕ)
      → ((j : ℕ) → get_bucket_head t j ≡ [])
      → search_bucket rounds t i ≡ undefined
  unfolding search_bucket
  search_bucket-undefined zero t i none_there = refl
  search_bucket-undefined (suc rounds) t i none_there =
      search_bucket-next rounds t i (none_there i)
      ∙ search_bucket-undefined rounds t (suc i) none_there

  pub locate_chain-here :
      (a : ℕ) (m : HashNode T) (l : Chain T)
      → (m.address == a) ≡ true
      → locate_chain a (m ∷ l) ≡ m ∷ l
  unfolding locate_chain
  locate_chain-here a m l e = rw e

  pub locate_chain-behind :
      (a : ℕ) (m : HashNode T) (l : Chain T)
      → (m.address == a) ≡ false
      → locate_chain a (m ∷ l) ≡ locate_chain a l
  unfolding locate_chain
  locate_chain-behind a m l e = rw e

  pub locate-here :
      (a : ℕ) (l : Chain T) (bs : List (Chain T)) {m : HashNode T} {d : Chain T}
      → locate_chain a l ≡ m ∷ d
      → locate a (l ∷ bs) ≡ m ∷ d
  unfolding locate
  locate-here a l bs e = rw (locate, e)

  pub locate-behind :
      (a : ℕ) (l : Chain T) (bs : List (Chain T))
      → locate_chain a l ≡ []
      → locate a (l ∷ bs) ≡ locate a bs
  unfolding locate
  locate-behind a l bs e = rw (locate, e)

  locate_chain-suffix :
      (a : ℕ) (l : Chain T) (n : HashNode T) (c : Chain T)
      → locate_chain a l ≡ n ∷ c
      → (before : Chain T) × (l ≡ before ++ (n ∷ c))
  unfolding locate_chain
  locate_chain-suffix a [] n c e = absurd (cc)
  locate_chain-suffix a (m ∷ l) n c e = elim (Bool-cases (m.address == a)) [
    | inl f ↦ ([], sym (locate_chain-here a m l f) ∙ e)
    | inr f ↦
        let (before, g) = locate_chain-suffix a l n c (sym (locate_chain-behind a m l f) ∙ e) in
        (m ∷ before, ap (λ t. m ∷ t) g)
  ]

  -- A pointer that is found stands in some bucket.
  pub locate-bucket :
      (a : ℕ) (bs : List (Chain T)) (n : HashNode T) (c : Chain T)
      → locate a bs ≡ n ∷ c
      → (i : ℕ) × (before : Chain T) × (i < length bs) × (get_or bs i [] ≡ before ++ (n ∷ c))
  unfolding locate get_or
  locate-bucket a [] n c e = absurd (cc)
  locate-bucket a (l ∷ bs) n c e = elim (List-cases (locate_chain a l)) [
    | inl f ↦
        let (i, before, lt, g) = locate-bucket a bs n c (sym (locate-behind a l bs f) ∙ e) in
        (suc i, before, omega arith, g)
    | inr (m, d, f) ↦
        let (before, g) = locate_chain-suffix a l n c (f ∙ sym (locate-here a l bs f) ∙ e) in
        (0, before, omega arith, g)
  ]

  -- The nodes of a table around a bucket.
  pub flatten_at :
      (bs : List (Chain T)) (i : ℕ)
      → i < length bs
      → (front : List (HashNode T)) × (flatten bs
          ≡ front ++ (get_or bs i [] ++ flatten (drop (suc i) bs)))
  unfolding flatten get_or drop
  flatten_at [] i h = absurd (omega arith)
  flatten_at (c ∷ bs) zero h = ([], refl)
  flatten_at (c ∷ bs) (suc i) h =
      let (front, e) = flatten_at bs i (omega arith) in
      (c ++ front, ap (λ t. c ++ t) e ∙ sym (append_assoc c front _))
