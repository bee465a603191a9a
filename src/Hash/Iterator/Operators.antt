-- ===== src/Hash/Iterator/Operators.antt =====
-- src/hash.h, `RedisHashIterator`, and the loop of test/hash_test.cpp over it. The table that the
-- iterator points to is the hash, and is passed next to it.
use redis_db.Prelude.{
  ℕ, zero, suc, Bool, true, false, not, List, [], ◌∷◌, ◌==◌, Run, ok, undefined, diverges, ◌>>=◌,
}
use redis_db.Traits.{Traits}
use redis_db.Table.{Chain}
use redis_db.Hash.{Hash}
use redis_db.Hash.Iterator.{begin, end, next}

-- The pointer that the iterator holds: the node with those behind it in its chain, or `nullptr`.
pub record HashIterator {ℓ} (T : Type ℓ) : Type ℓ where
  pub pointer : Chain T

-- The number of the null pointer is 0.
abbrev pub address_of {ℓ} : {T : Type ℓ} → Chain T → ℕ
address_of [] = 0
address_of (n ∷ c) = n.address

module _ {ℓ} {T : Type ℓ} where
  -- `operator*`
  unfoldable pub star : HashIterator T → Run T
  star it = elim it.pointer [ [] ↦ undefined | n ∷ c ↦ ok n.value ]

  -- `getConstPtr`: the value is the first member of the node, so that its address is that of the
  -- node.
  abbrev pub get_const_ptr : HashIterator T → ℕ
  get_const_ptr it = address_of it.pointer

  unfoldable pub is_equal : HashIterator T → HashIterator T → Bool
  is_equal it other = get_const_ptr it == get_const_ptr other

  unfoldable pub is_not_equal : HashIterator T → HashIterator T → Bool
  is_not_equal it other = not (get_const_ptr it == get_const_ptr other)

module _ {ℓ} {T K : Type ℓ} (traits : Traits T K) where
  -- `next` of a pointer, which the null pointer must not be.
  unfoldable pub next_pointer : Hash T → Chain T → Run (Chain T × Hash T)
  next_pointer h [] = undefined
  next_pointer h (n ∷ c) = next traits h n.address

  -- `operator++()`
  unfoldable pub increment : Hash T → HashIterator T → Run (HashIterator T × Hash T)
  unfolding next_pointer
  increment h it = do (p, h₁) ← next_pointer h it.pointer; ok (record { pointer = p }, h₁)

  -- `operator++(int)`: what it returns, and where the iterator then stands.
  unfoldable pub post_increment :
      Hash T → HashIterator T → Run (HashIterator T × HashIterator T × Hash T)
  unfolding next_pointer
  post_increment h it = do (p, h₁) ← next_pointer h it.pointer; ok (it, record { pointer = p }, h₁)

  -- The iterators that `Hash::begin` and `Hash::end` return.
  unfoldable pub begin_iterator : Hash T → Run (HashIterator T × Hash T)
  begin_iterator h = do (p, h₁) ← begin traits h; ok (record { pointer = p }, h₁)

  unfoldable pub end_iterator : Hash T → Run (HashIterator T × Hash T)
  end_iterator h = do (p, h₁) ← end traits h; ok (record { pointer = p }, h₁)

  -- `for (; it != hash.end(); it++)` on fuel: the values `*it` that its body sees.
  unfoldable pub for_loop : ℕ → Hash T → HashIterator T → Run (List T)
  unfolding is_not_equal star post_increment end_iterator
  for_loop zero h it = diverges
  for_loop (suc fuel) h it = do
    (stop, h₁) ← end_iterator h
    elim (is_not_equal it stop) [
      | false ↦ ok []
      | true ↦ do
        v ← star it
        (_, on, h₂) ← post_increment h₁ it
        rest ← for_loop fuel h₂ on
        ok (v ∷ rest)
    ]
