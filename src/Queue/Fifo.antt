-- ===== src/Queue/Fifo.antt =====
-- src/threadPool.h, the order in which values leave the queue.
use redis_db.Prelude.{ℕ, ◌≡◌, refl, ap, List, [], ◌∷◌, ◌++◌, sym, ◌∙◌}
use mathlib.Core.List.{append_assoc}
use redis_db.Queue.{new_queue, set_max_size}
use redis_db.Queue.System.{
  System, Step, push_tried, push_waited, pop_called, pop_taken, pop_slept, woken_spuriously,
  pop_tried, resized, Reaches, started, stepped, try_push-inv, wait_push_round-inv,
  wait_pop_round-inv, try_pop-inv,
}

module _ {ℓ} {A : Type ℓ} where
  -- What went in is what came out, followed by what is still there.
  abbrev pub IsFifo : System A → Type ℓ
  IsFifo s = s.pushed ≡ s.popped ++ s.queue.data_list

  in_behind :
      (pushed popped held new : List A) (a : A)
      → pushed ≡ popped ++ held
      → new ≡ held ++ (a ∷ [])
      → pushed ++ (a ∷ []) ≡ popped ++ new
  in_behind pushed popped held new a e f = rw (e, f) (append_assoc popped held (a ∷ []))

  out_in_front :
      (pushed popped held rest : List A) (a : A)
      → pushed ≡ popped ++ held
      → held ≡ a ∷ rest
      → pushed ≡ (popped ++ (a ∷ [])) ++ rest
  out_in_front pushed popped held rest a e f =
      e ∙ ap (λ d. popped ++ d) f ∙ sym (append_assoc popped (a ∷ []) rest)

  Step-IsFifo : {s t : System A} → Step s t → IsFifo s → IsFifo t
  unfolding set_max_size
  Step-IsFifo (push_tried s a q e) h =
      in_behind s.pushed s.popped _ _ a h (try_push-inv s.queue q a e).0
  Step-IsFifo (push_waited s a q e) h =
      in_behind s.pushed s.popped _ _ a h (wait_push_round-inv s.queue q a e).0
  Step-IsFifo (pop_called s) h = h
  Step-IsFifo (pop_taken s n a q e f) h =
      out_in_front s.pushed s.popped _ _ a h (wait_pop_round-inv s.queue q a f).0
  Step-IsFifo (pop_slept s n e f) h = h
  Step-IsFifo (woken_spuriously s n e) h = h
  Step-IsFifo (pop_tried s a q e f) h =
      out_in_front s.pushed s.popped _ _ a h (try_pop-inv s.queue q a e f).0
  Step-IsFifo (resized s n) h = h

  -- In whatever order the threads take their turns, the values leave the queue in the order in
  -- which they were pushed, and none is lost or doubled: those that came out, followed by those in
  -- the queue, are those that went in.
  pub Reaches-IsFifo : (n : ℕ) (s : System A) → Reaches n s → IsFifo s
  unfolding new_queue
  Reaches-IsFifo n s started = refl
  Reaches-IsFifo n s (stepped r st) = Step-IsFifo st (Reaches-IsFifo n _ r)
