-- ===== src/Queue/Wakeups.antt =====
-- src/threadPool.h, that a call of `waitPop` does not sleep through a push.
use redis_db.Prelude.{ℕ, zero, suc, ◌≤◌, ◌≡◌, ap, ◌∷◌, [], ◌++◌, arith, List, length, length-append}
use redis_db.Queue.{new_queue, set_max_size}
use redis_db.Queue.System.{
  System, notify_awake, notify_asleep, Step, push_tried, push_waited, pop_called, pop_taken,
  pop_slept, woken_spuriously, pop_tried, resized, Reaches, started, stepped, try_push-inv,
  wait_push_round-inv, wait_pop_round-inv, wait_pop_round-none, try_pop-inv,
}

-- With somebody asleep there are no more values than calls awake.
abbrev IsAttended : (size awake asleep : ℕ) → Type 0
IsAttended size awake asleep = 1 ≤ asleep → size ≤ awake

notified :
    (size awake asleep : ℕ)
    → IsAttended size awake asleep
    → IsAttended (suc size) (notify_awake awake asleep) (notify_asleep asleep)
notified size awake zero h lt = absurd (omega arith)
notified size awake (suc asleep) h lt = omega (arith, h (omega arith))

module _ {ℓ} {A : Type ℓ} where
  abbrev IsWatched : System A → Type 0
  IsWatched s = IsAttended (length s.queue.data_list) s.awake s.asleep

  pub longer :
      {new : List A} (held : List A) (a : A)
      → new ≡ held ++ (a ∷ [])
      → length new ≡ suc (length held)
  longer {new} held a e = omega (arith, ap length e, length-append held (a ∷ []))

  pub shorter : {held rest : List A} {a : A} → held ≡ a ∷ rest → length held ≡ suc (length rest)
  shorter e = ap length e

  Step-IsWatched : {s t : System A} → Step s t → IsWatched s → IsWatched t
  unfolding set_max_size
  Step-IsWatched (push_tried s a q e) h lt =
      rw (longer s.queue.data_list a (try_push-inv s.queue q a e).0)
        (notified _ s.awake s.asleep h lt)
  Step-IsWatched (push_waited s a q e) h lt =
      rw (longer s.queue.data_list a (wait_push_round-inv s.queue q a e).0)
        (notified _ s.awake s.asleep h lt)
  Step-IsWatched (pop_called s) h lt = omega (arith, h lt)
  Step-IsWatched (pop_taken s n a q e f) h lt =
      omega (arith, h lt, shorter (wait_pop_round-inv s.queue q a f).0)
  Step-IsWatched (pop_slept s n e f) h lt = omega (arith, ap length (wait_pop_round-none s.queue f))
  Step-IsWatched (woken_spuriously s n e) h lt = omega (arith, h (omega arith))
  Step-IsWatched (pop_tried s a q e f) h lt =
      omega (arith, h lt, shorter (try_pop-inv s.queue q a e f).0)
  Step-IsWatched (resized s n) h lt = omega (arith, h lt)

  -- No wakeup is lost: in whatever order the threads take their turns, whenever a call of `waitPop`
  -- sleeps, there are at least as many calls awake, about to test the condition, as there are
  -- values in the queue.
  pub Reaches-attended :
      (n : ℕ) (s : System A) → Reaches n s → 1 ≤ s.asleep → length s.queue.data_list ≤ s.awake
  unfolding new_queue
  Reaches-attended n s started lt = omega arith
  Reaches-attended n s (stepped r st) lt = Step-IsWatched st (Reaches-attended n _ r) lt
