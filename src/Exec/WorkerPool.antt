-- ===== src/Exec/WorkerPool.antt =====
-- include/yk/exec/worker_pool.hpp: the threads of a pool with the exceptions that left them. A thread
-- that is still running ends when it is joined at the latest; with what it ends is part of its
-- state. The limit is an `int`; one below 0 is refused as 0 is. The launching of a scheduler's workers stands in Scheduler.Workers.
pub mod Exceptions
mod Samples
use yk_util.Base.{
  ℕ, zero, suc, ◌+◌, ◌-◌, Bool, true, false, ◌&&◌, ◌||◌, List, [], ◌∷◌, ◌++◌, Option, none, some,
  ltb, if◌then◌else◌,
}

-- `ThreadData`, with what the function of a running thread will end with.
pub record ThreadData (E : Type 0) : Type 0 where
  pub joinable : Bool
  pub exception : Option E
  pub running : Option (Option E)

pub record WorkerPool (E : Type 0) : Type 0 where
  pub worker_limit : ℕ
  pub threads : List (ThreadData E)
  pub stop_requested : Bool
  pub rethrow_exceptions_on_exit : Bool

-- What a member function ends with.
pub data Exit (E : Type 0) : Type 0 where
  returns : Exit E
  rethrows : E → Exit E
  invalid_argument : Exit E

abbrev pub is_some : {E : Type 0} → Option E → Bool
is_some none = false
is_some (some e) = true

module _ {E : Type 0} where
  unfoldable pub set_worker_limit : ℕ → WorkerPool E → WorkerPool E × Exit E
  set_worker_limit worker_limit p =
      if ltb worker_limit 2
      then (p, invalid_argument)
      else (record p { worker_limit = worker_limit }, returns)

  unfoldable pub halt : WorkerPool E → WorkerPool E
  halt p = record p { stop_requested = true }

  -- `launch`, of a function that ends with `outcome`
  unfoldable pub launch : Option E → WorkerPool E → WorkerPool E
  launch outcome p = record p {
    threads =
        p.threads ++ record { joinable = true; exception = none; running = some outcome } ∷ [];
  }

  -- The function of a running thread ends: the handlers in `launch`.
  unfoldable pub ends : ThreadData E → ThreadData E
  ends t = elim t.running [
    | none ↦ t
    | some outcome ↦ record t { exception = outcome; running = none }
  ]

  -- An exception that leaves the function asks the others to stop.
  unfoldable pub end_at : ℕ → List (ThreadData E) → List (ThreadData E)
  unfolding ends
  end_at i [] = []
  end_at zero (t ∷ ts) = ends t ∷ ts
  end_at (suc i) (t ∷ ts) = t ∷ end_at i ts

  throws_at : ℕ → List (ThreadData E) → Bool
  throws_at i [] = false
  throws_at zero (t ∷ ts) = elim t.running [ none ↦ false | some outcome ↦ is_some outcome ]
  throws_at (suc i) (t ∷ ts) = throws_at i ts

  unfoldable pub worker_ends : ℕ → WorkerPool E → WorkerPool E
  unfolding end_at throws_at
  worker_ends id p = record p {
    threads = end_at id p.threads;
    stop_requested = p.stop_requested || throws_at id p.threads;
  }

  -- `if (thread.joinable()) thread.join()`
  unfoldable pub join : ThreadData E → ThreadData E
  unfolding ends
  join t = if t.joinable then record (ends t) { joinable = false } else t

  -- The loop of `rethrow_exceptions`, which an exception leaves.
  unfoldable pub rethrow_loop : List (ThreadData E) → List (ThreadData E) × Exit E
  unfolding join
  rethrow_loop [] = ([], returns)
  rethrow_loop (t ∷ ts) =
      let rest = rethrow_loop ts in
      elim (join t).exception [
        | some e ↦ (record (join t) { exception = none } ∷ ts, rethrows e)
        | none ↦ (join t ∷ rest.0, rest.1)
      ]

  unfoldable pub rethrow_exceptions : WorkerPool E → WorkerPool E × Exit E
  unfolding rethrow_loop
  rethrow_exceptions p =
      if p.stop_requested
      then (record p { threads = (rethrow_loop p.threads).0 }, (rethrow_loop p.threads).1)
      else (p, returns)

  -- The loop of `halt_and_clear_impl`, with `first_exception`.
  unfoldable pub clear_loop : Bool → Option E → List (ThreadData E) → Option E
  unfolding join
  clear_loop keep first_exception [] = first_exception
  clear_loop keep first_exception (t ∷ ts) =
      let found =
        if t.joinable && keep && is_some (join t).exception
        then (join t).exception
        else first_exception in
      clear_loop keep found ts

  -- `halt_and_clear_impl`; with `is_exiting` it is the destructor's.
  unfoldable pub halt_and_clear_impl : Bool → WorkerPool E → WorkerPool E × Exit E
  unfolding halt clear_loop
  halt_and_clear_impl is_exiting p =
      let kept = clear_loop (is_exiting && p.rethrow_exceptions_on_exit) none p.threads in
      (record (halt p) { threads = [] }, elim kept [ none ↦ returns | some e ↦ rethrows e ])
