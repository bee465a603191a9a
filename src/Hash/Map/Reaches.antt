-- ===== src/Hash/Map/Reaches.antt =====
-- src/hash.h, `HashMap` in use: the states that it comes to from the constructor on, call by call,
-- and the finite map that each of them stands for.
use redis_db.Prelude.{
  ℕ, ◌≡◌, ◌↔◌, refl, sym, ◌∙◌, subst, inl, Bool, true, Option, none, some, Run, ok, ok-injective,
  Returns,
}
use redis_db.Traits.{Traits}
use redis_db.Table.{Chain}
use redis_db.Hash.{Hash, new_hash}
use redis_db.Hash.Operations.{erase}
use redis_db.Hash.Iterator.{cbegin}
use redis_db.Hash.Iterator.Visits.{cbegin-PointsTo}
use redis_db.Hash.Valid.{IsValid, SameNodes, new_hash-IsResting}
use redis_db.Hash.Advance.{Fits, IsReady}
use redis_db.Hash.Stale.Sound.{IsDecided, get-Finds}
use redis_db.Hash.Map.{Outcome, outcome, map_of, insert, get}
use redis_db.Hash.Map.Refines.{Models, ModelsAt-congr, update, insert-Models, erase-Models}

-- What is stated of all that a run yields holds of what it yields.
Returns-at {ℓ κ} :
    {A : Type ℓ} {stated : A → Type κ} {run : Run A} {a : A}
    → Returns run stated
    → run ≡ ok a
    → stated a
Returns-at {stated = stated} (b, run, s) e = subst stated (ok-injective (sym run ∙ e)) s

module _ {ℓ} {K V : Type ℓ} (equal : K → K → Bool)
    (equal_iff : (a b : K) → (equal a b ≡ true) ↔ (a ≡ b)) (hasher : K → ℕ)
    (same_value : V → V → Bool)
    (same_value_iff : (a b : V) → (same_value a b ≡ true) ↔ (a ≡ b)) where
  -- The instance, and what its maps and states have to do with each other.
  abbrev traits : Traits (K × V) K
  traits = map_of equal equal_iff hasher

  abbrev pub Stands : (K → Option V) → Hash (K × V) → Type ℓ
  Stands = Models equal equal_iff hasher same_value same_value_iff

  abbrev bind : (K → Option V) → K → Option V → K → Option V
  bind = update equal equal_iff hasher same_value same_value_iff

  -- The calls so far have brought a new hash to this state, and made of the empty map this one. The
  -- calls that insert or erase are not the ones that begin a rehash: those that read or walk are.
  pub data Reaches : (K → Option V) → Hash (K × V) → Type ℓ where
    created : (h : Hash (K × V)) → new_hash ≡ ok h → Reaches (λ k. none) h
    inserted :
        (f : K → Option V) (h r : Hash (K × V)) (address : ℕ) (k : K) (v : V)
        → Reaches f h
        → IsReady h
        → f k ≡ none
        → insert equal equal_iff hasher h address k v ≡ ok r
        → Reaches (bind f k (some v)) r
    erased :
        (f : K → Option V) (h r : Hash (K × V)) (k : K) (status : Bool)
        → Reaches f h
        → Fits h
        → IsReady h
        → erase traits h k ≡ ok (status, r)
        → Reaches (bind f k none) r
    got :
        (f : K → Option V) (h r : Hash (K × V)) (k : K) (o : Outcome V)
        → Reaches f h
        → IsDecided traits h
        → get equal equal_iff hasher h k ≡ ok (o, r)
        → Reaches f r
    walked :
        (f : K → Option V) (h r : Hash (K × V)) (pointer : Chain (K × V))
        → Reaches f h
        → cbegin traits h ≡ ok (pointer, r)
        → Reaches f r

  -- The same map, in a state with the same nodes.
  kept :
      (f : K → Option V) (h r : Hash (K × V))
      → Stands f h
      → IsValid traits r
      → SameNodes h r
      → Stands f r
  kept f h r (_, models) w same = (
    w,
    λ k.
        ModelsAt-congr equal equal_iff hasher same_value same_value_iff h r k (f k) same (models k),
  )

  get-kept :
      (f : K → Option V) (h : Hash (K × V)) (k : K)
      → Stands f h
      → IsDecided traits h
      → Returns (get equal equal_iff hasher h k) λ r. Stands f r.1
  unfolding get
  get-kept f h k models decided =
      let (r, run, (_, w, same)) = get-Finds traits h k models.0 decided in
      ((outcome r.0, r.1), rw run refl, kept f h r.1 models w same)

  pub Reaches-Models : {f : K → Option V} {h : Hash (K × V)} → Reaches f h → Stands f h
  Reaches-Models (created h e) =
      let (rest, none_there) = Returns-at (new_hash-IsResting traits) e in
      (inl rest, λ k. none_there _)
  Reaches-Models (inserted f h r address k v before ready fresh e) =
      Returns-at
        (insert-Models equal equal_iff hasher same_value same_value_iff f h address k v
          (Reaches-Models before) ready fresh)
        e
  Reaches-Models (erased f h r k status before fits ready e) =
      (Returns-at
        (erase-Models equal equal_iff hasher same_value same_value_iff f h k (Reaches-Models before)
          fits ready)
        e).1
  Reaches-Models (got f h r k o before decided e) =
      Returns-at (get-kept f h k (Reaches-Models before) decided) e
  Reaches-Models (walked f h r pointer before e) =
      let models = Reaches-Models before in
      let (rest, same, _) = Returns-at (cbegin-PointsTo traits h models.0) e in
      kept f h r models (inl rest) same
