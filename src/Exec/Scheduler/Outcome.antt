-- ===== src/Exec/Scheduler/Outcome.antt =====
-- What a scheduler has done when it says that all tasks are done.
use yk_util.Base.{
  ℕ, ◌+◌, if◌then◌else◌, ◌≤◌, ◌<◌, ◌≡◌, ◌≢◌, refl, Bool, true, false, List, [], ◌∷◌, some, arith,
  get_elem?, total, le-total,
}
use yk_util.Exec.Stats.{is_all_task_done}
use yk_util.Exec.Scheduler.Workers.{Worker, crashed}
use yk_util.Exec.Scheduler.System.{
  System, Event, wait_for_all_tasks, completed, stopped, run, start,
}
use yk_util.Exec.Scheduler.Invariant.{
  in_flight, made_by, taken_by, empty_handed, has_crashed, has_abandoned, Inv, run-Inv, fresh,
  fresh-Inv,
}
use yk_util.Exec.Scheduler.Unchanged.{run-inputs}

-- Workers that hold no input of a chunk hold no output either.
made-eq-zero :
    (ws : List Worker) → total in_flight ws ≡ 0 → total empty_handed ws ≡ 0 → total made_by ws ≡ 0
made-eq-zero [] f h = refl
made-eq-zero (w ∷ ws) f h = ground (arith, made-eq-zero ws)

settled :
    (s : System) (n : ℕ)
    → 0 < n
    → s.scheduler.inputs ≡ n
    → Inv s
    → s.closed ≡ false
    → s.scheduler.last_producer_input_it ≡ n
    → total in_flight s.workers ≡ 0
    → s.queued ≡ 0
    → total taken_by s.workers ≡ 0
    → (is_all_task_done s.scheduler.stats ≡ true)
      × (s.notified ≡ true)
      × ((wait_for_all_tasks s).1 ≡ (if s.stop then stopped else completed))
unfolding wait_for_all_tasks
settled s n pos e v o last flight drained taken =
    ground (arith, v.values o, v.told, made-eq-zero s.workers)

raised :
    (s : System) (i : ℕ) (w : Worker)
    → Inv s
    → s.closed ≡ false
    → get_elem? s.workers i ≡ some w
    → has_abandoned w ≡ 1
    → 0 < in_flight w + taken_by w
    → (is_all_task_done s.scheduler.stats ≡ false) × ((wait_for_all_tasks s).1 ≡ stopped)
unfolding wait_for_all_tasks
raised s i w v o e a h = ground (
  arith,
  v.values o,
  v.asked,
  made-eq-zero s.workers,
  le-total in_flight s.workers i w e,
  le-total taken_by s.workers i w e,
  le-total has_abandoned s.workers i w e,
)

-- For a scheduler with counted gates over any input size, chunk size of at least one, crew and
-- interleaving of worker events, with callbacks that may throw, no worker ends by an exception
-- of the bookkeeping: producer_input_consumed_all and producer_input_processed_all are not set
-- twice, and the processed count equals the input size when the last input is processed.
pub workers_do_not_throw :
    (sized : Bool) (n chunk limit : ℕ) (es : List Event) (i : ℕ) (w : Worker)
    → 1 ≤ chunk
    → get_elem? (run (fresh sized n chunk limit) es).workers i ≡ some w
    → w.phase ≢ crashed
workers_do_not_throw sized n chunk limit es i w c e bad =
    let v = run-Inv (fresh sized n chunk limit) es (fresh-Inv sized n chunk limit c) in
    absurd (
      ground
        (arith, v.sound, le-total has_crashed (run (fresh sized n chunk limit) es).workers i w e))

-- For a scheduler with counted gates over any input size, chunk size of at least one, crew and
-- interleaving of worker events, with callbacks that may throw: if the queue was not closed and
-- all tasks count as done, then every input has been processed, the queue is empty, no worker
-- holds a value, as many values have been consumed as produced, and the waiting thread has been
-- notified.
pub done_means_complete :
    (sized : Bool) (n chunk limit : ℕ) (es : List Event)
    → 1 ≤ chunk
    → (run (fresh sized n chunk limit) es).closed ≡ false
    → is_all_task_done (run (fresh sized n chunk limit) es).scheduler.stats ≡ true
    → ((run (fresh sized n chunk limit) es).scheduler.stats.producer_input_processed ≡ n)
      × ((run (fresh sized n chunk limit) es).queued ≡ 0)
      × (total taken_by (run (fresh sized n chunk limit) es).workers ≡ 0)
      × ((run (fresh sized n chunk limit) es).scheduler.stats.consumer_input_processed
          ≡ (run (fresh sized n chunk limit) es).scheduler.stats.producer_output)
      × ((run (fresh sized n chunk limit) es).notified ≡ true)
unfolding start
done_means_complete sized n chunk limit es c o d =
    complete (run (fresh sized n chunk limit) es) n (run-inputs (fresh sized n chunk limit) es)
      (run-Inv (fresh sized n chunk limit) es (fresh-Inv sized n chunk limit c)) o d
  where
    complete :
        (s : System) (n : ℕ)
        → s.scheduler.inputs ≡ n
        → Inv s
        → s.closed ≡ false
        → is_all_task_done s.scheduler.stats ≡ true
        → (s.scheduler.stats.producer_input_processed ≡ n)
          × (s.queued ≡ 0)
          × (total taken_by s.workers ≡ 0)
          × (s.scheduler.stats.consumer_input_processed ≡ s.scheduler.stats.producer_output)
          × (s.notified ≡ true)
    complete s n e v o d = ground (arith, v.values o, v.told d, made-eq-zero s.workers)

-- When every input of a non-empty range has been claimed, no input or value is with a worker,
-- and the queue is empty and was not closed, then all tasks count as done, the waiting thread
-- has been notified, and wait_for_all_tasks returns, as completed if there was no stop request.
pub complete_means_done :
    (sized : Bool) (n chunk limit : ℕ) (es : List Event)
    → 1 ≤ chunk
    → 0 < n
    → (run (fresh sized n chunk limit) es).closed ≡ false
    → (run (fresh sized n chunk limit) es).scheduler.last_producer_input_it ≡ n
    → total in_flight (run (fresh sized n chunk limit) es).workers ≡ 0
    → (run (fresh sized n chunk limit) es).queued ≡ 0
    → total taken_by (run (fresh sized n chunk limit) es).workers ≡ 0
    → (is_all_task_done (run (fresh sized n chunk limit) es).scheduler.stats ≡ true)
      × ((run (fresh sized n chunk limit) es).notified ≡ true)
      × ((wait_for_all_tasks (run (fresh sized n chunk limit) es)).1
          ≡ (if (run (fresh sized n chunk limit) es).stop then stopped else completed))
unfolding start
complete_means_done sized n chunk limit es c pos o last flight drained taken =
    let v = run-Inv (fresh sized n chunk limit) es (fresh-Inv sized n chunk limit c) in
    settled (run (fresh sized n chunk limit) es) n pos (run-inputs (fresh sized n chunk limit) es) v
      o last flight drained taken

-- For a scheduler with counted gates over any input size, chunk size of at least one, crew and
-- interleaving: if the callback of a worker threw while the worker held inputs or values, and
-- the queue was not closed, then not all tasks count as done, and wait_for_all_tasks returns as
-- after a stop.
pub raised_means_stopped :
    (sized : Bool) (n chunk limit : ℕ) (es : List Event) (i : ℕ) (w : Worker)
    → 1 ≤ chunk
    → (run (fresh sized n chunk limit) es).closed ≡ false
    → get_elem? (run (fresh sized n chunk limit) es).workers i ≡ some w
    → has_abandoned w ≡ 1
    → 0 < in_flight w + taken_by w
    → (is_all_task_done (run (fresh sized n chunk limit) es).scheduler.stats ≡ false)
      × ((wait_for_all_tasks (run (fresh sized n chunk limit) es)).1 ≡ stopped)
raised_means_stopped sized n chunk limit es i w c o e a h =
    raised (run (fresh sized n chunk limit) es) i w
      (run-Inv (fresh sized n chunk limit) es (fresh-Inv sized n chunk limit c)) o e a h
