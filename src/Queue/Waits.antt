-- ===== src/Queue/Waits.antt =====
-- src/threadPool.h, `waitPush` with its loop, while other threads work on the queue.
use mathlib.Core.List.{append_assoc}
use redis_db.Prelude.{
  ℕ, zero, suc, ◌+◌, ◌-◌, ◌≤◌, ◌<◌, ◌≡◌, refl, sym, ap, ◌∙◌, none, some, List, [], ◌∷◌, ◌++◌, arith,
  length, length-append, le→leb, lt→leb, ◌⊎◌, inl, inr, replicate, Run, ok, diverges, Returns,
}
use redis_db.Queue.{Queue, emplace, try_push, try_pop, set_max_size, wait_push_round}

-- What another thread does to the queue in one critical section: it takes the oldest value
-- (`waitPop`, `tryPop`), puts one in (`tryPush`, a round of `waitPush`), or changes the capacity.
pub data Turn {ℓ} (A : Type ℓ) : Type ℓ where
  take : Turn A
  offer : A → Turn A
  resize : ℕ → Turn A

-- How many values consumers take in all, from the numbers before each try.
unfoldable pub total : List ℕ → ℕ
total [] = 0
total (c ∷ counts) = c + total counts

module _ {ℓ} {A : Type ℓ} where
  unfoldable pub turn : Queue A → Turn A → Queue A
  unfolding try_pop try_push set_max_size
  turn q take = (try_pop q).1
  turn q (offer a) = (try_push q a).1
  turn q (resize n) = set_max_size q n

  unfoldable pub turns : Queue A → List (Turn A) → Queue A
  unfolding turn
  turns q [] = q
  turns q (t ∷ ts) = turns (turn q t) ts

  -- The whole of `waitPush`: while the queue is full it lets the mutex go, the other threads take
  -- the turns of one entry of the schedule, and it tries again. It is still waiting when the
  -- schedule ends with the queue full.
  unfoldable pub wait_push : List (List (Turn A)) → Queue A → A → Run (Queue A)
  unfolding turns wait_push_round
  wait_push [] q a = elim (wait_push_round q a) [ none ↦ diverges | some r ↦ ok r ]
  wait_push (ts ∷ schedule) q a = elim (wait_push_round q a) [
    | none ↦ wait_push schedule (turns q ts) a
    | some r ↦ ok r
  ]

  -- The queue after the first `n` entries of the schedule.
  abbrev pub after : ℕ → Queue A → List (List (Turn A)) → Queue A
  after zero q schedule = q
  after (suc n) q [] = q
  after (suc n) q (ts ∷ schedule) = after n (turns q ts) schedule

  abbrev pub HasRoom : Queue A → Type 0
  HasRoom q = length q.data_list < q.max_size

  abbrev pub IsFull : Queue A → Type 0
  IsFull q = q.max_size ≤ length q.data_list

  size-cases : (q : Queue A) → HasRoom q ⊎ IsFull q
  size-cases q = compare_sizes (length q.data_list) q.max_size
    where
      compare_sizes : (m n : ℕ) → (m < n) ⊎ (n ≤ m)
      compare_sizes m n = ground arith

  wait_push-room :
      (schedule : List (List (Turn A))) (q : Queue A) (a : A)
      → HasRoom q
      → wait_push schedule q a ≡ ok (emplace q a)
  unfolding wait_push wait_push_round
  wait_push-room [] q a room = rw (wait_push, lt→leb q.max_size (length q.data_list) room) refl
  wait_push-room (ts ∷ schedule) q a room =
      rw (wait_push, lt→leb q.max_size (length q.data_list) room) refl

  wait_push-full :
      (ts : List (Turn A)) (schedule : List (List (Turn A))) (q : Queue A) (a : A)
      → IsFull q
      → wait_push (ts ∷ schedule) q a ≡ wait_push schedule (turns q ts) a
  unfolding wait_push wait_push_round
  wait_push-full ts schedule q a full =
      rw (wait_push, le→leb q.max_size (length q.data_list) full) refl

  IsFull-until :
      (q : Queue A) (ts : List (Turn A)) (schedule : List (List (Turn A))) (m : ℕ)
      → IsFull q
      → ((j : ℕ) → j < m → IsFull (after j (turns q ts) schedule))
      → (j : ℕ) → j < suc m
      → IsFull (after j q (ts ∷ schedule))
  IsFull-until q ts schedule m full later zero lt = full
  IsFull-until q ts schedule m full later (suc j) lt = later j (omega arith)

  -- Where the schedule comes to a queue with room, `waitPush` returns at the first time that it
  -- finds one, whatever the other threads have done until then; it has tried in vain as long as the
  -- queue was full, and has put its one value behind those that it found.
  pub wait_push-emplace :
      (schedule : List (List (Turn A))) (q : Queue A) (a : A) (n : ℕ)
      → n ≤ length schedule
      → HasRoom (after n q schedule)
      → Returns (wait_push schedule q a) λ r.
        (m : ℕ) × (m ≤ n)
        × (r ≡ emplace (after m q schedule) a)
        × HasRoom (after m q schedule)
        × ((j : ℕ) → j < m → IsFull (after j q schedule))
  wait_push-emplace schedule q a zero le room = (
    _,
    wait_push-room schedule q a room,
    (0, omega arith, refl, room, λ j lt. absurd (omega arith)),
  )
  wait_push-emplace [] q a (suc n) le room = absurd (omega arith)
  wait_push-emplace (ts ∷ schedule) q a (suc n) le room = elim (size-cases q) [
    | inl now ↦ (
      _,
      wait_push-room (ts ∷ schedule) q a now,
      (0, omega arith, refl, now, λ j lt. absurd (omega arith)),
    )
    | inr full ↦
        let (r, run, (m, small, same, there, before)) =
          wait_push-emplace schedule (turns q ts) a n (omega arith) room in
        (
          r,
          wait_push-full ts schedule q a full ∙ run,
          (suc m, omega arith, same, there, IsFull-until q ts schedule m full before),
        )
  ]

  -- A schedule of consumers: how many values they take before each try.
  abbrev pub takes : List ℕ → List (List (Turn A))
  takes [] = []
  takes (c ∷ counts) = replicate c take ∷ takes counts

  turns-take :
      (c : ℕ) (l : List A) (size : ℕ)
      → (gone : List A) × (kept : List A) × (l ≡ gone ++ kept)
        × (turns (record { data_list = l; max_size = size }) (replicate c take)
            ≡ record { data_list = kept; max_size = size })
        × (length kept ≤ length l - c)
  unfolding turns turn try_pop replicate
  turns-take zero l size = ([], l, refl, refl, omega arith)
  turns-take (suc c) [] size =
      let (gone, kept, split, same, le) = turns-take c [] size in
      (gone, kept, split, same, omega arith)
  turns-take (suc c) (x ∷ l) size =
      let (gone, kept, split, same, le) = turns-take c l size in
      (x ∷ gone, kept, ap (λ t. x ∷ t) split, same, omega arith)

  -- What `waitPush` comes to when only consumers work: some of the oldest values are gone, and the
  -- new one is behind the others.
  abbrev pub Replaced : Queue A → A → Queue A → Type ℓ
  Replaced q a r =
      (gone : List A) × (kept : List A) × (q.data_list ≡ gone ++ kept)
      × (r.data_list ≡ kept ++ (a ∷ []))
      × (r.max_size ≡ q.max_size)
      × (length r.data_list ≤ q.max_size)

  Replaced-now : (q : Queue A) (a : A) → HasRoom q → Replaced q a (emplace q a)
  unfolding emplace
  Replaced-now q a room =
      ([], q.data_list, refl, refl, refl, omega (arith, length-append q.data_list (a ∷ [])))

  Replaced-later :
      (q r : Queue A) (a : A) (gone kept : List A)
      → q.data_list ≡ gone ++ kept
      → Replaced (record { data_list = kept; max_size = q.max_size }) a r
      → Replaced q a r
  Replaced-later q r a gone kept split (more, last, e, put, size, le) = (
    gone ++ more,
    last,
    split ∙ ap (λ t. gone ++ t) e ∙ sym (append_assoc gone more last),
    put,
    size,
    le,
  )

  -- Consumers let `waitPush` through: from a queue that is full, even over its capacity, and not of
  -- the capacity 0, once they have taken enough values for one more to fit, in however many rounds
  -- and however many at a time. The values that are left and the new one, at the end, fit the
  -- capacity.
  pub wait_push-takes :
      (counts : List ℕ) (q : Queue A) (a : A)
      → 1 ≤ q.max_size
      → length q.data_list < q.max_size + total counts
      → Returns (wait_push (takes counts) q a) (Replaced q a)
  unfolding total
  wait_push-takes [] q a positive enough =
      (_, wait_push-room [] q a (omega arith), Replaced-now q a (omega arith))
  wait_push-takes (c ∷ counts) q a positive enough = elim (size-cases q) [
    | inl now ↦ (_, wait_push-room (takes (c ∷ counts)) q a now, Replaced-now q a now)
    | inr full ↦
        let (gone, kept, split, same, le) = turns-take c q.data_list q.max_size in
        let (r, run, more) =
          wait_push-takes counts (record { data_list = kept; max_size = q.max_size }) a positive
            (omega arith) in
        (
          r,
          wait_push-full (replicate c take) (takes counts) q a full
              ∙ ap (λ p. wait_push (takes counts) p a) same
              ∙ run,
          Replaced-later q r a gone kept split more,
        )
  ]
