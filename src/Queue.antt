-- ===== src/Queue.antt =====
-- src/threadPool.h, `ConcurrentQueueWithLock`: each function is one critical section under the
-- mutex, from lock to unlock; the two that wait are one round each, after which they return or let
-- the mutex go and try again.
pub mod System
pub mod Fifo
pub mod Wakeups
pub mod Capacity
pub mod Waits
mod Tests
use redis_db.Prelude.{
  ℕ, Bool, true, false, Option, none, some, List, [], ◌∷◌, ◌++◌, if◌then◌else◌, leb, length, Run,
  ok, undefined,
}

pub record Queue {ℓ} (A : Type ℓ) : Type ℓ where
  pub data_list : List A
  pub max_size : ℕ

module _ {ℓ} {A : Type ℓ} where
  -- `mData.emplace(value)`, at the end of the `std::queue`.
  unfoldable pub emplace : Queue A → A → Queue A
  emplace q a = record q { data_list = q.data_list ++ (a ∷ []) }

  unfoldable pub new_queue : ℕ → Queue A
  new_queue s = record { data_list = []; max_size = s }

  -- The callers waiting in `waitPop` are notified just when the value goes in.
  unfoldable pub try_push : Queue A → A → Bool × Queue A
  unfolding emplace
  try_push q a = if leb q.max_size (length q.data_list) then (false, q) else (true, emplace q a)

  -- A round of the loop of `waitPush`: `none` when the queue is full, so that it yields.
  unfoldable pub wait_push_round : Queue A → A → Option (Queue A)
  unfolding emplace
  wait_push_round q a = if leb q.max_size (length q.data_list) then none else some (emplace q a)

  -- A test of the condition in `waitPop`: `none` when the queue is empty, so that it sleeps.
  unfoldable pub wait_pop_round : Queue A → Option (A × Queue A)
  wait_pop_round q = elim q.data_list [
    | [] ↦ none
    | a ∷ rest ↦ some (a, record q { data_list = rest })
  ]

  -- `tryPop` drops the value.
  unfoldable pub try_pop : Queue A → Bool × Queue A
  try_pop q = elim q.data_list [
    | [] ↦ (false, q)
    | a ∷ rest ↦ (true, record q { data_list = rest })
  ]

  -- `front` of an empty `std::queue` is undefined.
  unfoldable pub front : Queue A → Run A
  front q = elim q.data_list [ [] ↦ undefined | a ∷ rest ↦ ok a ]

  unfoldable pub empty : Queue A → Bool
  empty q = elim q.data_list [ [] ↦ true | a ∷ rest ↦ false ]

  unfoldable pub get_size : Queue A → ℕ
  get_size q = length q.data_list

  unfoldable pub get_max_size : Queue A → ℕ
  get_max_size q = q.max_size

  unfoldable pub set_max_size : Queue A → ℕ → Queue A
  set_max_size q s = record q { max_size = s }
