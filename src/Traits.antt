-- ===== src/Traits.antt =====
-- src/hash.h, `HtValueTraits` and `HtValueTraitsImp`: how a stored value yields its key, and what
-- the template parameters `KeyType` (its `==`) and `Hasher` bring.
use redis_db.Prelude.{ℕ, Bool, true, ◌≡◌, ◌↔◌, refl, bit_and}

-- A table of values of type `T` under keys of type `K`. The hasher is called on keys alone.
pub record Traits {ℓ} (T K : Type ℓ) : Type ℓ where
  pub get_key : T → K
  pub equal : K → K → Bool
  pub equal_iff : (a b : K) → (equal a b ≡ true) ↔ (a ≡ b)
  pub hasher : K → ℕ

-- `HtValueTraitsImp<T, false>`: the value of a set is its own key.
abbrev pub set_traits {ℓ} :
    {K : Type ℓ} (equal : K → K → Bool)
    → ((a b : K) → (equal a b ≡ true) ↔ (a ≡ b))
    → (K → ℕ)
    → Traits K K
set_traits equal equal_iff hasher = record {
  get_key = λ v. v;
  equal = equal;
  equal_iff = equal_iff;
  hasher = hasher;
}

-- `HtValueTraitsImp<T, true>`: the value of a map is a pair of the key and the mapped value.
abbrev pub map_traits {ℓ} :
    {K V : Type ℓ} (equal : K → K → Bool)
    → ((a b : K) → (equal a b ≡ true) ↔ (a ≡ b))
    → (K → ℕ)
    → Traits (K × V) K
map_traits equal equal_iff hasher = record {
  get_key = λ v. v.0;
  equal = equal;
  equal_iff = equal_iff;
  hasher = hasher;
}

module _ {ℓ} {T K : Type ℓ} (traits : Traits T K) where
  open traits use {get_key, equal, equal_iff, hasher}

  -- `ValueTraits::getKey(value) == key`
  abbrev pub has_key : K → T → Bool
  has_key k v = equal (get_key v) k

  -- `mHasher(key) & mask`
  abbrev pub slot : ℕ → K → ℕ
  slot mask k = bit_and (hasher k) mask

  pub equal_refl : (k : K) → equal k k ≡ true
  equal_refl k = (equal_iff k k).1 refl
