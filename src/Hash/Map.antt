-- ===== src/Hash/Map.antt =====
-- src/hash.h, `HashMap` and `HashSet`: the hash of pairs, and that of keys.
pub mod Refines
pub mod Reaches
use redis_db.Prelude.{ℕ, ◌≡◌, ◌↔◌, Bool, true, Option, none, some, Run, ok, ◌>>=◌}
use redis_db.Traits.{Traits, map_traits, set_traits}
use redis_db.Table.{HashNode}
use redis_db.Hash.{Hash}
use redis_db.Hash.Operations.{insert as hash_insert, get as hash_get}

-- What `HashMap::get` does: it returns a value or throws `std::out_of_range`.
pub data Outcome {ℓ} (V : Type ℓ) : Type ℓ where
  value : V → Outcome V
  out_of_range : Outcome V

unfoldable pub outcome {ℓ} : {K V : Type ℓ} → Option (HashNode (K × V)) → Outcome V
outcome none = out_of_range
outcome (some n) = value n.value.1

module _ {ℓ} {K : Type ℓ} (equal : K → K → Bool)
    (equal_iff : (a b : K) → (equal a b ≡ true) ↔ (a ≡ b)) (hasher : K → ℕ) where
  -- `HashSet::insert`
  unfoldable pub set_insert : Hash K → ℕ → K → Run (Hash K)
  set_insert h address k = hash_insert (set_traits equal equal_iff hasher) h address k

module _ {ℓ} {K V : Type ℓ} (equal : K → K → Bool)
    (equal_iff : (a b : K) → (equal a b ≡ true) ↔ (a ≡ b)) (hasher : K → ℕ) where
  abbrev pub map_of : Traits (K × V) K
  map_of = map_traits equal equal_iff hasher

  -- `HashMap::insert`
  unfoldable pub insert : Hash (K × V) → ℕ → K → V → Run (Hash (K × V))
  insert h address k v = hash_insert map_of h address (k, v)

  -- `HashMap::get`. The reference that it returns is modelled by the value.
  unfoldable pub get : Hash (K × V) → K → Run (Outcome V × Hash (K × V))
  unfolding outcome
  get h k = do (node, r) ← hash_get map_of h k; ok (outcome node, r)
