-- ===== src/Exec/CvQueue.antt =====
-- include/yk/exec/cv_queue.hpp: `cv_queue_traits` and the monitor `cv_queue`.
-- Each member function runs under `mtx_`, so a call is one step on the state of the monitor. A
-- condition variable is the number of threads that wait on it: a notified thread evaluates its
-- predicate again when it gets the mutex, which is a new call of the same member function.
pub mod Flags
pub mod Run
pub mod Branches
pub mod Closed
pub mod Conservation
pub mod Fifo
pub mod Wakeups
pub mod Stranded
mod Samples
use yk_util.Base.{
  ℕ, ◌+◌, ◌-◌, Bool, true, false, not, ◌&&◌, ◌||◌, List, [], ◌∷◌, ◌++◌, Option, none, some, ltb,
  leb, if◌then◌else◌, length,
}
use yk_util.Base.Int.{ℤ, pos, negsuc}
use Flags.{Traits, is_single_producer, is_single_consumer}

pub record CvQueue {ℓ} (A : Type ℓ) : Type ℓ where
  pub buf : List A
  pub capacity : ℕ
  pub closed : Bool
  pub not_full : ℕ  -- threads that wait on `cv_not_full_`
  pub not_empty : ℕ  -- threads that wait on `cv_not_empty_`

-- How a call ends: it sleeps on a condition variable, returns, or throws `interrupt_exception`.
-- `undefined` is `front()` or `back()` of an empty buffer.
pub data Outcome {ℓ} (R : Type ℓ) : Type ℓ where
  waits : Outcome R
  returned : R → Outcome R
  interrupted : Outcome R
  undefined : Outcome R

pub data LengthError : Type 0 where
  negative exceeds_max_size : LengthError

pub data Checked {ℓ} (R : Type ℓ) : Type ℓ where
  ok : R → Checked R
  length_error : LengthError → Checked R

abbrev pub notify_one : ℕ → ℕ
notify_one n = n - 1

abbrev pub notify_all : ℕ → ℕ
notify_all n = 0

abbrev pub is_empty {ℓ} : {A : Type ℓ} → List A → Bool
is_empty [] = true
is_empty (x ∷ xs) = false

-- `back()` and `pop_back()`
pub pop_back {ℓ} : {A : Type ℓ} → List A → Option (A × List A)
pop_back [] = none
pop_back (x ∷ []) = some (x, [])
pop_back (x ∷ y ∷ xs) = elim (pop_back (y ∷ xs)) [ none ↦ none | some (z, r) ↦ some (z, x ∷ r) ]

-- `front()` and `pop_front()`
abbrev pub pop_front {ℓ} : {A : Type ℓ} → List A → Option (A × List A)
pop_front [] = none
pop_front (x ∷ xs) = some (x, xs)

module _ {ℓ} {A : Type ℓ} where
  -- `cv_queue(size_type initial_capacity)`, over a buffer with the given `max_size()`
  pub create : ℕ → ℤ → Checked (CvQueue A)
  create max_size (negsuc n) = length_error negative
  create max_size (pos n) =
      if ltb max_size n
      then length_error exceeds_max_size
      else ok (record { buf = []; capacity = n; closed = false; not_full = 0; not_empty = 0 })

  -- `set_capacity`; `set_capacity_and_reserve` changes the allocation besides, which is not state here.
  pub set_capacity : ℕ → ℤ → CvQueue A → Checked (CvQueue A)
  set_capacity max_size (negsuc n) q = length_error negative
  set_capacity max_size (pos n) q =
      if ltb max_size n then length_error exceeds_max_size else ok (record q { capacity = n })

  pub size_info : CvQueue A → ℕ × ℕ
  size_info q = (length q.buf, q.capacity)

  -- `do_push`
  unfoldable pub do_push : List A → A → List A
  do_push buf x = buf ++ x ∷ []

  -- `do_pop`: the default strategy is the stack's.
  unfoldable pub do_pop : Traits → List A → Option (A × List A)
  do_pop t buf = if t.is_queue_based_push_pop then pop_front buf else pop_back buf

  -- `cv_queue_traits::push`, both overloads
  unfoldable pub push : Traits → CvQueue A → A → CvQueue A
  unfolding do_push
  push t q x =
      let buf' = do_push q.buf x in
      if is_single_producer t && is_single_consumer t
      then record q {
        buf = buf';
        not_empty = if is_empty q.buf then notify_one q.not_empty else q.not_empty;
      }
      else record q {
        buf = buf';
        not_empty = if is_single_consumer t then notify_one q.not_empty else notify_all q.not_empty;
      }

  -- the notifications of `cv_queue_traits::pop`, both overloads
  unfoldable pub pop_notify : Traits → CvQueue A → ℕ
  pop_notify t q =
      if is_single_producer t && is_single_consumer t
      then (if leb q.capacity (length q.buf) then notify_one q.not_full else q.not_full)
      else (if is_single_producer t then notify_one q.not_full else notify_all q.not_full)

  -- `cv_queue_traits::pop`
  unfoldable pub pop : Traits → CvQueue A → CvQueue A × Outcome (Option A)
  unfolding do_pop pop_notify
  pop t q = elim (do_pop t q.buf) [
    | none ↦ (q, undefined)
    | some (x, rest) ↦ (record q { buf = rest; not_full = pop_notify t q }, returned (some x))
  ]

  unfoldable pub push_wait_cond : CvQueue A → Bool
  push_wait_cond q = ltb (length q.buf) q.capacity || q.closed

  unfoldable pub pop_wait_cond : CvQueue A → Bool
  pop_wait_cond q = not (is_empty q.buf) || q.closed

  unfoldable pub push_wait : Traits → CvQueue A → A → CvQueue A × Outcome Bool
  unfolding push push_wait_cond
  push_wait t q x =
      if not (push_wait_cond q)
      then (record q { not_full = q.not_full + 1 }, waits)
      else if q.closed
      then (q, returned false)
      else (push t q x, returned true)

  -- `returned none` is `false`, `returned (some v)` is `true` with `value` set.
  unfoldable pub pop_wait : Traits → CvQueue A → CvQueue A × Outcome (Option A)
  unfolding pop pop_wait_cond
  pop_wait t q =
      if not (pop_wait_cond q)
      then (record q { not_empty = q.not_empty + 1 }, waits)
      else if q.closed
      then (q, returned none)
      else pop t q

  -- The overloads with a stop token: `stop` is `stop_requested()` when the predicate is evaluated.
  pub push_wait_stop : Traits → Bool → CvQueue A → A → CvQueue A × Outcome Bool
  unfolding push_wait
  push_wait_stop t stop q x = if stop then (q, interrupted) else push_wait t q x

  pub pop_wait_stop : Traits → Bool → CvQueue A → CvQueue A × Outcome (Option A)
  unfolding pop_wait
  pop_wait_stop t stop q = if stop then (q, interrupted) else pop_wait t q

  unfoldable pub close : CvQueue A → CvQueue A
  close q = record q {
    closed = true;
    not_full = notify_all q.not_full;
    not_empty = notify_all q.not_empty;
  }

  -- `open`
  pub open_again : CvQueue A → CvQueue A
  open_again q = record q {
    closed = false;
    not_full = notify_all q.not_full;
    not_empty = notify_all q.not_empty;
  }

  pub clear : CvQueue A → CvQueue A
  clear q = record q { buf = []; not_full = notify_all q.not_full }
