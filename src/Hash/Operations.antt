-- ===== src/Hash/Operations.antt =====
-- src/hash.h, the operations of `Hash`, `HashMap` and `HashSet` on a key. Each works out the index
-- of the key's bucket, then begins or carries on a rehash, and then uses the index.
use redis_db.Prelude.{
  ℕ, ◌+◌, ◌-◌, ◌^◌, Bool, true, ◌&&◌, Option, none, some, if◌then◌else◌, word, Run, ok, ◌>>=◌,
  deref,
}
use redis_db.Traits.{Traits, slot}
use redis_db.Table.{HashNode, insert_node, get as table_get, is_exist as table_is_exist, erase_node}
use redis_db.Hash.{Hash, is_rehashing, is_need_shrink, rehash, advance}

-- The last part of both functions `insert`.
unfoldable pub insert_at {ℓ} : {T : Type ℓ} → Hash T → ℕ → HashNode T → Run (Hash T)
unfolding is_rehashing
insert_at h index n =
    if is_rehashing h
    then (do b ← deref h.backup; ok (record h { backup = some (insert_node b index n).1 }))
    else ok (record h { active = (insert_node h.active index n).1 })

module _ {ℓ} {T K : Type ℓ} (traits : Traits T K) where
  open traits use {get_key}

  -- `mHasher(key) & (mActive->mBucketsNumber - 1)`
  unfoldable pub active_index : Hash T → K → ℕ
  active_index h k = slot traits (word (h.active.buckets_number + (2 ^ 64 - 1))) k

  -- The part of `erase` between the first rehash and the second. The index is the one that `erase`
  -- works out before it rehashes.
  unfoldable pub erase_at : Hash T → ℕ → K → Run (Bool × Hash T)
  unfolding is_rehashing active_index
  erase_at h index k =
      if is_rehashing h
      then (do
        b ← deref h.backup
        let r = erase_node traits b index k
        let s = erase_node traits h.active (active_index h k) k
        if r.0
            then ok (true, record h { backup = some r.1 })
            else ok (s.0, record h { backup = some r.1; active = s.1 }))
      else (let s = erase_node traits h.active index k in ok (s.0, record h { active = s.1 }))

  unfoldable pub erase : Hash T → K → Run (Bool × Hash T)
  unfolding advance erase_at is_need_shrink
  erase h k = do
    let index = slot traits h.buckets_mask k
    h₁ ← advance traits h
    (status, h₂) ← erase_at h₁ index k
    h₃ ← if status && is_need_shrink h₂ then rehash traits 2 true h₂ else ok h₂
    ok (status, h₃)

  unfoldable pub is_exist_at : Hash T → ℕ → K → Run Bool
  unfolding is_rehashing active_index
  is_exist_at h index k =
      if is_rehashing h
      then (do
        b ← deref h.backup
        ok (
            if table_is_exist traits b index k
            then true
            else table_is_exist traits h.active (active_index h k) k))
      else ok (table_is_exist traits h.active index k)

  unfoldable pub is_exist : Hash T → K → Run (Bool × Hash T)
  unfolding advance is_exist_at
  is_exist h k = do
    let index = slot traits h.buckets_mask k
    h₁ ← advance traits h
    found ← is_exist_at h₁ index k
    ok (found, h₁)

  -- `insert` of a value. `address` is where `new` puts the node.
  unfoldable pub insert : Hash T → ℕ → T → Run (Hash T)
  unfolding advance insert_at
  insert h address v = do
    let index = slot traits h.buckets_mask (get_key v)
    h₁ ← advance traits h
    insert_at h₁ index (record { address = address; value = v })

  -- The search of `HashMap::get`.
  unfoldable pub get_at : Hash T → ℕ → K → Run (Option (HashNode T))
  unfolding is_rehashing active_index
  get_at h index k =
      if is_rehashing h
      then (do
        b ← deref h.backup
        node ← table_get traits b index k
        elim node [ none ↦ table_get traits h.active (active_index h k) k | some n ↦ ok (some n) ])
      else table_get traits h.active index k

  -- `HashMap::get` as far as the node that it finds. `none` is `throw std::out_of_range`: the
  -- rehashing that went before has been done all the same.
  unfoldable pub get : Hash T → K → Run (Option (HashNode T) × Hash T)
  unfolding advance get_at
  get h k = do
    let index = slot traits h.buckets_mask k
    h₁ ← advance traits h
    node ← get_at h₁ index k
    ok (node, h₁)
