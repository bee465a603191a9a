-- ===== src/Hash/Begins.antt =====
-- src/hash.h, how `Hash::rehash` begins: the choice of the new table.
use redis_db.Prelude.{
  ℕ, ◌+◌, ◌-◌, ◌^◌, ◌≤◌, ◌<◌, ◌≡◌, refl, Bool, true, false, some, [], arith, word, lt→==, count_if,
  count_if-true, count_if-flatten-replicate, replicate, get_or-replicate, Returns, ◌==◌, ≡→==,
}
use redis_db.Traits.{Traits}
use redis_db.Table.{HashNode, HashTable}
use redis_db.Table.Bags.{bucket, contents, new_table-ok}
use redis_db.Hash.{Hash, npos, begin_rehash, start_rehashing, rehash}
use redis_db.Hash.Valid.{IsResting, IsMoving, SameNodes, count-moving, count-resting, empty-IsHome}
use redis_db.Hash.Rehash.Power.{IsNext, get_next_power2-IsNext}

module _ {ℓ} {T K : Type ℓ} (traits : Traits T K) where
  -- `s` is `h` with an empty backup of the next power of two, and no bucket moved yet.
  pub record Begins (h s : Hash T) (b : HashTable T) : Type ℓ where
    pub state : IsMoving traits s b
    pub start : s.rehash_index ≡ 0
    pub active : s.active ≡ h.active
    pub next : IsNext h.active.size b.buckets_number
    pub same : SameNodes h s
    pub empty : (i : ℕ) → bucket b i ≡ []

  begin_rehash-Begins :
      (h : Hash T)
      → IsResting traits h
      → h.active.size ≤ 2 ^ 30
      → Returns (begin_rehash h) λ s. (b : HashTable T) × Begins h s b
  unfolding begin_rehash start_rehashing
  begin_rehash-Begins h v small =
      let (n, run, (power, le, least)) = get_next_power2-IsNext h.active.size (omega arith) in
      let lt : n < 2 ^ 31 = ground arith in
      let b : HashTable T = record { nodes = replicate n []; size = 0; buckets_number = n } in
      let mask : word (n + (2 ^ 64 - 1)) ≡ n - 1 = omega (arith, power.2) in
      let empty : (p : HashNode T → Bool) → count_if p (contents b) ≡ 0 =
        λ p. count_if-flatten-replicate p n in
      let s : Hash T = record {
        active = h.active;
        backup = some b;
        buckets_number = n;
        buckets_mask = word (n + (2 ^ 64 - 1));
        rehash_index = 0;
      } in
      let state : IsMoving traits s b = record {
        home = v.home;
        new_home = empty-IsHome traits n power lt;
        backup = refl;
        number = refl;
        mask = mask;
        index = omega arith;
        moved = λ i below. absurd (omega arith);
        sized = omega (arith, empty (λ _. true), count_if-true (contents b));
      } in
      (
        s,
        rw (run, new_table-ok n lt),
        (
          b,
          record {
            state = state;
            start = refl;
            active = refl;
            next = (power, le, least);
            same =
                λ p. omega (arith, count-resting traits p v, count-moving traits p state, empty p);
            empty = λ i. get_or-replicate n i [];
          },
        ),
      )

  -- A rehash that begins: the call makes the new table and moves the first buckets.
  pub rehash-Begins :
      (step : ℕ) (is_auto : Bool) (h : Hash T)
      → step < 2 ^ 32
      → IsResting traits h
      → h.active.size ≤ 2 ^ 30
      → (s : Hash T) × (b : HashTable T) × Begins h s b
        × (rehash traits step is_auto h ≡ rehash traits step is_auto s)
  unfolding rehash
  rehash-Begins step is_auto h small v fits =
      let (s, run, (b, t)) = begin_rehash-Begins h v fits in
      let idle : (s.rehash_index == npos) ≡ false = lt→== _ _ (omega (arith, t.start)) in
      (s, b, t, rw (≡→== _ _ v.index, run, idle))
