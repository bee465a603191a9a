-- ===== src/Hash/Rehash.antt =====
-- src/hash.h, `Hash::rehash`: each call keeps the nodes and comes nearer to the end.
pub mod Power
use redis_db.Prelude.{
  ℕ, zero, suc, ◌+◌, ◌-◌, ◌/◌, ◌%◌, ◌^◌, ◌≤◌, ◌<◌, ◌≡◌, refl, sym, ap, ◌∙◌, ◌⊎◌, inl, inr, Bool,
  true, false, some, none, List, [], ◌∷◌, arith, length, word, int_to_size, ltb, lt→ltb, le→ltb,
  ltb→lt, ltb→le, lt→==, min, get_or_outside, count_if-flatten_zero, count_if, count_if-true,
  count_if-flatten-replicate, replicate, get_or-replicate, int_to_size_small, Run, ok, ◌>>=◌,
  Returns, ◌==◌, if◌then◌else◌, Bool-cases, ≡→==, quotient,
}
use redis_db.Traits.{Traits, slot}
use redis_db.Table.{HashNode, Chain, HashTable, new_table}
use redis_db.Table.Bags.{bucket, contents, new_table-ok}
use redis_db.Hash.{
  Hash, npos, calculate_rehash_step, begin_rehash, start_rehashing, finish_rehash,
  complete_rehashing, rehash_buckets, rehash_loop, rehash, get_next_power2,
}
use redis_db.Hash.Valid.{
  IsPower, IsHome, IsResting, IsMoving, IsValid, SameNodes, count-moving, count-resting,
  empty-IsHome,
}
use redis_db.Hash.Rounds.{Moves, rehash_loop-Moves}
use Power.{IsNext, get_next_power2-IsNext}

-- How many buckets one call moves: the larger width by the smaller.
abbrev pub step_of : ℕ → ℕ → ℕ
step_of a b = if ltb b a then a / b else b / a

step_of_bounds :
    (a b : ℕ) → 4 ≤ a → 4 ≤ b → a < 2 ^ 31 → b < 2 ^ 31 → (1 ≤ step_of a b) × (step_of a b < 2 ^ 31)
step_of_bounds a b ha hb la lb = ground arith

module _ {ℓ} {T K : Type ℓ} (traits : Traits T K) where
  -- What a call that moves `by` buckets makes of a hash that moves into `b`.
  abbrev pub Advances : ℕ → Hash T → HashTable T → Hash T → Type ℓ
  Advances by h b r =
      SameNodes h r
      × (((h.rehash_index + by < h.active.buckets_number)
            × (c : HashTable T) × IsMoving traits r c
            × (r.rehash_index ≡ h.rehash_index + by)
            × (r.active.buckets_number ≡ h.active.buckets_number)
            × (c.buckets_number ≡ b.buckets_number))
          ⊎ ((h.active.buckets_number ≤ h.rehash_index + by)
              × IsResting traits r
              × (r.active.buckets_number ≡ b.buckets_number)))

  pub Advances-IsValid :
      (by : ℕ) (h : Hash T) {r : Hash T} (b : HashTable T) → Advances by h b r → IsValid traits r
  Advances-IsValid by h b (_, inl (lt, c, m, e, w, _)) = inr (c, m, omega arith)
  Advances-IsValid by h b (_, inr (_, rest, _)) = inl rest

  calculate-ok :
      {h : Hash T} {b : HashTable T}
      → IsMoving traits h b
      → calculate_rehash_step h ≡ ok (step_of h.active.buckets_number b.buckets_number)
  unfolding calculate_rehash_step
  calculate-ok {h} {b} m =
      let pa : (h.active.buckets_number == 0) ≡ false = ground (arith, m.home.power) in
      let pb : (b.buckets_number == 0) ≡ false = ground (arith, m.new_home.power) in
      rw m.backup (elim (Bool-cases (ltb b.buckets_number h.active.buckets_number)) [
        | inl e ↦ rw (e, pb)
        | inr e ↦ rw (e, pa)
      ])

  -- The part of `rehash` behind the choice of the step.
  pub move_on : ℕ → Hash T → Run (Hash T)
  move_on by h = do h₂ ← rehash_buckets traits by h; finish_rehash h₂

  -- When every bucket is moved, the active table is empty.
  moved_out :
      (p : HashNode T → Bool) {r : Hash T} {c : HashTable T}
      → IsMoving traits r c
      → r.rehash_index ≡ r.active.buckets_number
      → count_if p (contents r.active) ≡ 0
  unfolding count_if
  moved_out p {r} m e = count_if-flatten_zero p r.active.nodes λ i.
      elim (Bool-cases (ltb i r.rehash_index)) [
        | inl lt ↦ rw (m.moved i (ltb→lt i r.rehash_index lt))
        | inr ge ↦
            let out : length r.active.nodes ≤ i =
              omega (arith, m.home.table, ltb→le i r.rehash_index ge) in
            rw (get_or_outside r.active.nodes i [] out)
      ]

  finish-IsResting :
      {r : Hash T} {c : HashTable T}
      → IsMoving traits r c
      → r.rehash_index ≡ r.active.buckets_number
      → Returns
          (finish_rehash r)
          λ s. IsResting traits s × SameNodes r s × (s.active.buckets_number ≡ c.buckets_number)
  unfolding finish_rehash complete_rehashing
  finish-IsResting {r} {c} m e =
      let s : Hash T = record r { active = c; backup = none; rehash_index = npos } in
      let rest : IsResting traits s = record {
        home = m.new_home;
        single = refl;
        number = m.number;
        mask = m.mask;
        index = refl;
        sized = m.sized;
      } in
      (
        s,
        rw (≡→== _ _ e, m.backup),
        (
          rest,
          λ p. omega (arith, count-resting traits p rest, count-moving traits p m, moved_out p m e),
          refl,
        ),
      )

  move_on_runs :
      (by k : ℕ) (h r s : Hash T)
      → h.rehash_index < h.active.buckets_number
      → min (word (h.rehash_index + by)) h.active.buckets_number - h.rehash_index ≡ k
      → rehash_loop traits k h ≡ ok r
      → finish_rehash r ≡ ok s
      → move_on by h ≡ ok s
  unfolding move_on rehash_buckets
  move_on_runs by k h r s lt rounds run fin =
      rw (lt→ltb h.rehash_index h.active.buckets_number lt, rounds, run) fin

  finish_rehash_not_yet :
      (r : Hash T) → r.rehash_index < r.active.buckets_number → finish_rehash r ≡ ok r
  unfolding finish_rehash
  finish_rehash_not_yet r lt = rw (lt→== _ _ lt)

  move_on-Advances :
      (by : ℕ) (h : Hash T) (b : HashTable T)
      → by < 2 ^ 32
      → IsMoving traits h b
      → h.rehash_index < h.active.buckets_number
      → Returns (move_on by h) (Advances by h b)
  move_on-Advances by h b small m lt =
      let a = h.active.buckets_number in
      let i = h.rehash_index in
      let bound = m.home.small in
      elim (Bool-cases (ltb (i + by) a)) [
        | inl more ↦
            let below = ltb→lt (i + by) a more in
            let (r, run, t) = rehash_loop-Moves traits by h b m (omega arith) in
            (
              r,
              move_on_runs by by h r r lt (omega arith) run
                  (finish_rehash_not_yet r (omega (arith, t.index, t.width))),
              (t.same, inl (below, t.target, t.state, t.index, t.width, t.target_width)),
            )
        | inr done ↦
            let above = ltb→le (i + by) a done in
            let (r, run, t) = rehash_loop-Moves traits (a - i) h b m (omega arith) in
            let (s, fin, (rest, same, width)) =
              finish-IsResting t.state (omega (arith, t.index, t.width)) in
            (
              s,
              move_on_runs by (a - i) h r s lt (omega arith) run fin,
              (λ p. same p ∙ t.same p, inr (above, rest, width ∙ t.target_width)),
            )
      ]

  -- How many buckets a call of `rehash` asks to move.
  abbrev pub steps : ℕ → Bool → ℕ → ℕ → ℕ
  steps step is_auto a b = if is_auto then step_of a b else step

  -- While a rehash is going on, with a bucket left and a step below 2 ^ 32, `rehash` runs to an end:
  -- it moves as many of the next buckets as the step says (in a step worked out by the code, the
  -- ratio of the two widths), and where that reaches the last bucket, the backup becomes the only
  -- table. The nodes stay the same.
  pub rehash-Advances :
      (step : ℕ) (is_auto : Bool) (h : Hash T) (b : HashTable T)
      → step < 2 ^ 32
      → IsMoving traits h b
      → h.rehash_index < h.active.buckets_number
      → Returns
          (rehash traits step is_auto h)
          (Advances (steps step is_auto h.active.buckets_number b.buckets_number) h b)
  unfolding rehash move_on
  rehash-Advances step false h b small m lt =
      let busy : (h.rehash_index == npos) ≡ false = lt→== _ _ (omega (arith, m.home.small)) in
      rw busy (move_on-Advances step h b small m lt)
  rehash-Advances step true h b small m lt =
      let busy : (h.rehash_index == npos) ≡ false = lt→== _ _ (omega (arith, m.home.small)) in
      let by = step_of h.active.buckets_number b.buckets_number in
      let bounds =
        step_of_bounds h.active.buckets_number b.buckets_number m.home.power.2 m.new_home.power.2
          m.home.small m.new_home.small in
      let cast : int_to_size by ≡ by = int_to_size_small by bounds.1 in
      rw (busy, calculate-ok m, cast) (move_on-Advances by h b (omega (arith, bounds.1)) m lt)
