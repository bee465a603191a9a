-- ===== src/Queue/Capacity.antt =====
-- src/threadPool.h, how many values the queue holds.
use redis_db.Prelude.{ℕ, ◌≤◌, arith, length}
use redis_db.Queue.{new_queue, set_max_size}
use redis_db.Queue.System.{
  System, Step, push_tried, push_waited, pop_called, pop_taken, pop_slept, woken_spuriously,
  pop_tried, resized, Reaches, started, stepped, try_push-inv, wait_push_round-inv,
  wait_pop_round-inv, try_pop-inv,
}
use redis_db.Queue.Wakeups.{longer, shorter}

module _ {ℓ} {A : Type ℓ} where
  abbrev IsBounded : System A → Type 0
  IsBounded s = (length s.queue.data_list ≤ s.highest) × (s.queue.max_size ≤ s.highest)

  Step-IsBounded : {s t : System A} → Step s t → IsBounded s → IsBounded t
  unfolding set_max_size
  Step-IsBounded (push_tried s a q e) h =
      let (new, kept, free) = try_push-inv s.queue q a e in
      omega (arith, h, longer s.queue.data_list a new, kept, free)
  Step-IsBounded (push_waited s a q e) h =
      let (new, kept, free) = wait_push_round-inv s.queue q a e in
      omega (arith, h, longer s.queue.data_list a new, kept, free)
  Step-IsBounded (pop_called s) h = h
  Step-IsBounded (pop_taken s n a q e f) h =
      let (rest, kept) = wait_pop_round-inv s.queue q a f in omega (arith, h, shorter rest, kept)
  Step-IsBounded (pop_slept s n e f) h = h
  Step-IsBounded (woken_spuriously s n e) h = h
  Step-IsBounded (pop_tried s a q e f) h =
      let (rest, kept) = try_pop-inv s.queue q a e f in omega (arith, h, shorter rest, kept)
  Step-IsBounded (resized s n) h = omega (arith, h)

  Reaches-IsBounded : (n : ℕ) (s : System A) → Reaches n s → IsBounded s
  unfolding new_queue
  Reaches-IsBounded n s started = omega arith
  Reaches-IsBounded n s (stepped r st) = Step-IsBounded st (Reaches-IsBounded n _ r)

  -- In whatever order the threads take their turns, the queue never holds more values than the
  -- highest capacity that it has had.
  pub Reaches-bounded : (n : ℕ) (s : System A) → Reaches n s → length s.queue.data_list ≤ s.highest
  Reaches-bounded n s r = (Reaches-IsBounded n s r).0
