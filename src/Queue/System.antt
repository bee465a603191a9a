-- ===== src/Queue/System.antt =====
-- src/threadPool.h, `ConcurrentQueueWithLock` between threads: what producers and consumers do to
-- the queue and to its condition variable, one critical section after the other.
use redis_db.Prelude.{
  arith, ℕ, zero, suc, ◌<◌, ◌≡◌, max, length, true, none, some, List, [], ◌∷◌, ◌++◌, ok,
}
use redis_db.Queue.{
  Queue, emplace, new_queue, try_push, wait_push_round, wait_pop_round, try_pop, front,
  set_max_size,
}

-- The queue, how many calls of `waitPop` are about to test the condition and how many sleep in it,
-- and for the record: the values that went in and those that came out, oldest first, and the
-- highest capacity so far.
pub record System {ℓ} (A : Type ℓ) : Type ℓ where
  pub queue : Queue A
  pub awake : ℕ
  pub asleep : ℕ
  pub pushed : List A
  pub popped : List A
  pub highest : ℕ

-- The counts after `notify_one`: a sleeper wakes up, if there is one.
abbrev pub notify_awake : ℕ → ℕ → ℕ
notify_awake awake zero = awake
notify_awake awake (suc asleep) = suc awake

abbrev pub notify_asleep : ℕ → ℕ
notify_asleep zero = zero
notify_asleep (suc asleep) = asleep

module _ {ℓ} {A : Type ℓ} where
  abbrev pub start : ℕ → System A
  start s = record {
    queue = new_queue s;
    awake = 0;
    asleep = 0;
    pushed = [];
    popped = [];
    highest = s;
  }

  abbrev pub after_push : System A → A → Queue A → System A
  after_push s a q = record s {
    queue = q;
    awake = notify_awake s.awake s.asleep;
    asleep = notify_asleep s.asleep;
    pushed = s.pushed ++ (a ∷ []);
  }

  -- One critical section of some thread. A round that changes nothing (`tryPush` and `waitPush` on
  -- a full queue, `tryPop` on an empty one, the getters) is no step.
  pub data Step : System A → System A → Type ℓ where
    push_tried :
        (s : System A) (a : A) (q : Queue A)
        → try_push s.queue a ≡ (true, q)
        → Step s (after_push s a q)
    push_waited :
        (s : System A) (a : A) (q : Queue A)
        → wait_push_round s.queue a ≡ some q
        → Step s (after_push s a q)
    pop_called : (s : System A) → Step s (record s { awake = suc s.awake })
    pop_taken :
        (s : System A) (n : ℕ) (a : A) (q : Queue A)
        → s.awake ≡ suc n
        → wait_pop_round s.queue ≡ some (a, q)
        → Step s (record s { queue = q; awake = n; popped = s.popped ++ (a ∷ []) })
    pop_slept :
        (s : System A) (n : ℕ)
        → s.awake ≡ suc n
        → wait_pop_round s.queue ≡ none
        → Step s (record s { awake = n; asleep = suc s.asleep })
    woken_spuriously :
        (s : System A) (n : ℕ)
        → s.asleep ≡ suc n
        → Step s (record s { awake = suc s.awake; asleep = n })
    pop_tried :
        (s : System A) (a : A) (q : Queue A)
        → front s.queue ≡ ok a
        → try_pop s.queue ≡ (true, q)
        → Step s (record s { queue = q; popped = s.popped ++ (a ∷ []) })
    resized :
        (s : System A) (n : ℕ)
        → Step s (record s { queue = set_max_size s.queue n; highest = max s.highest n })

  -- The states that a queue of capacity `n` comes to, in any order of the threads.
  pub data Reaches (n : ℕ) : System A → Type ℓ where
    started : Reaches n (start n)
    stepped : {s t : System A} → Reaches n s → Step s t → Reaches n t

-- How the operations change the contents.
module _ {ℓ} {A : Type ℓ} where
  pub try_push-inv :
      (q r : Queue A) (a : A)
      → try_push q a ≡ (true, r)
      → (r.data_list ≡ q.data_list ++ (a ∷ []))
        × (r.max_size ≡ q.max_size)
        × (length q.data_list < q.max_size)
  unfolding try_push emplace
  try_push-inv q r a e = ground arith

  pub wait_push_round-inv :
      (q r : Queue A) (a : A)
      → wait_push_round q a ≡ some r
      → (r.data_list ≡ q.data_list ++ (a ∷ []))
        × (r.max_size ≡ q.max_size)
        × (length q.data_list < q.max_size)
  unfolding wait_push_round emplace
  wait_push_round-inv q r a e = ground arith

  pub wait_pop_round-inv :
      (q r : Queue A) (a : A)
      → wait_pop_round q ≡ some (a, r)
      → (q.data_list ≡ a ∷ r.data_list) × (r.max_size ≡ q.max_size)
  unfolding wait_pop_round
  wait_pop_round-inv q r a e = ground arith

  pub wait_pop_round-none : (q : Queue A) → wait_pop_round q ≡ none → q.data_list ≡ []
  unfolding wait_pop_round
  wait_pop_round-none q e = ground arith

  pub try_pop-inv :
      (q r : Queue A) (a : A)
      → front q ≡ ok a
      → try_pop q ≡ (true, r)
      → (q.data_list ≡ a ∷ r.data_list) × (r.max_size ≡ q.max_size)
  unfolding try_pop front
  try_pop-inv q r a e f = ground arith
