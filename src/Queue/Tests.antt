-- ===== src/Queue/Tests.antt =====
-- Runs of src/threadPool.h: a consumer that falls asleep, two pushes and a pop.
use redis_db.Prelude.{
  ℕ, ◌≤◌, ◌≡◌, ◌++◌, refl, arith, ◌<◌, ok, diverges, Returns, List, [], ◌∷◌, false, length,
}
use redis_db.Queue.{Queue, new_queue, emplace, try_push, wait_push_round, wait_pop_round, try_pop}
use redis_db.Queue.System.{
  System, start, push_tried, pop_called, pop_taken, pop_slept, Reaches, started, stepped,
}
use redis_db.Queue.Fifo.{Reaches-IsFifo}
use redis_db.Queue.Wakeups.{Reaches-attended}
use redis_db.Queue.Capacity.{Reaches-bounded}
use redis_db.Queue.Waits.{
  Turn, take, offer, turn, turns, total, wait_push, after, HasRoom, IsFull, takes, Replaced,
  wait_push-emplace, wait_push-takes,
}

abbrev filled : List ℕ → Queue ℕ
filled l = record { data_list = l; max_size = 2 }

-- Two consumers have fallen asleep on an empty queue of capacity 2.
abbrev sleeping : System ℕ
sleeping = record (start 2) { queue = filled []; asleep = 2 }

sleeping-Reaches : Reaches 2 sleeping
unfolding new_queue wait_pop_round
sleeping-Reaches =
    let one : System ℕ = record (start 2) { queue = filled []; asleep = 1 } in
    let called : System ℕ = record (start 2) { queue = filled []; awake = 1 } in
    let again : System ℕ = record (start 2) { queue = filled []; awake = 1; asleep = 1 } in
    stepped
      (stepped (stepped (stepped started (pop_called _)) (pop_slept called 0 refl refl))
        (pop_called one))
      (pop_slept again 0 refl refl)

-- A push wakes one of them.
abbrev woken : System ℕ
woken = record (start 2) { queue = filled (7 ∷ []); awake = 1; asleep = 1; pushed = 7 ∷ [] }

woken-Reaches : Reaches 2 woken
unfolding try_push emplace
woken-Reaches = stepped sleeping-Reaches (push_tried sleeping 7 (filled (7 ∷ [])) refl)

-- It takes the value.
abbrev served : System ℕ
served = record woken { queue = filled []; awake = 0; popped = 7 ∷ [] }

served-Reaches : Reaches 2 served
unfolding wait_pop_round
served-Reaches = stepped woken-Reaches (pop_taken woken 0 7 (filled []) refl refl)

full_queue : try_push (filled (1 ∷ 2 ∷ [])) 3 ≡ (false, filled (1 ∷ 2 ∷ []))
unfolding try_push
full_queue = refl

empty_queue : try_pop (filled []) ≡ (false, filled [])
unfolding try_pop
empty_queue = refl

Reaches-IsFifo_example : served.pushed ≡ served.popped ++ served.queue.data_list
Reaches-IsFifo_example = Reaches-IsFifo 2 served served-Reaches

Reaches-attended_example : length woken.queue.data_list ≤ woken.awake
Reaches-attended_example = Reaches-attended 2 woken woken-Reaches (omega arith)

Reaches-bounded_example : length woken.queue.data_list ≤ woken.highest
Reaches-bounded_example = Reaches-bounded 2 woken woken-Reaches

-- Another producer fills the place that a consumer has freed; the second time the place stays free.
abbrev schedule : List (List (Turn ℕ))
schedule = (take ∷ offer 9 ∷ []) ∷ (take ∷ []) ∷ []

contended : wait_push schedule (filled (1 ∷ 2 ∷ [])) 3 ≡ ok (filled (9 ∷ 3 ∷ []))
unfolding wait_push turns turn try_push try_pop wait_push_round emplace
contended = refl

-- Nobody takes a value.
blocked : wait_push ([] ∷ (offer 9 ∷ []) ∷ []) (filled (1 ∷ 2 ∷ [])) 3 ≡ diverges
unfolding wait_push turns turn try_push wait_push_round emplace
blocked = refl

wait_push-emplace_example : Returns (wait_push schedule (filled (1 ∷ 2 ∷ [])) 3) λ r.
    (m : ℕ) × (m ≤ 2)
    × (r ≡ emplace (after m (filled (1 ∷ 2 ∷ [])) schedule) 3)
    × HasRoom (after m (filled (1 ∷ 2 ∷ [])) schedule)
    × ((j : ℕ) → j < m → IsFull (after j (filled (1 ∷ 2 ∷ [])) schedule))
unfolding turns turn try_push try_pop emplace
wait_push-emplace_example =
    wait_push-emplace schedule (filled (1 ∷ 2 ∷ [])) 3 2 (omega arith) (omega arith)

wait_push-takes_example :
    Returns
      (wait_push (takes (0 ∷ 1 ∷ 1 ∷ [])) (filled (1 ∷ 2 ∷ 3 ∷ [])) 4)
      (Replaced (filled (1 ∷ 2 ∷ 3 ∷ [])) 4)
unfolding total
wait_push-takes_example =
    wait_push-takes (0 ∷ 1 ∷ 1 ∷ []) (filled (1 ∷ 2 ∷ 3 ∷ [])) 4 (omega arith) (omega arith)
