-- ===== src/Exec/Scheduler/Starved.antt =====
-- The bookkeeping of the scheduler at an empty input, at single-push gates, and at its guards.
use yk_util.Base.{ℕ, ◌≤◌, ◌≡◌, Bool, true, false, List, arith, some, none, if◌then◌else◌}
use yk_util.Exec.Gate.{Gate, make_gate, counted_by}
use yk_util.Exec.Gate
use yk_util.Exec.Gate.Counting.{accesses, plain_gate_miscounts}
use yk_util.Exec.Stats.{initial, is_all_task_done}
use yk_util.Exec.Scheduler.{
  Scheduler, make_scheduler, claim, report_producer, report_consumer, set_producer_inputs, ok,
}
use yk_util.Exec.Scheduler
use yk_util.Exec.Scheduler.System.{System, Event, run, start}
use yk_util.Exec.Scheduler.Invariant.{Inv, run-Inv, fresh, fresh-Inv}
use yk_util.Exec.Scheduler.Unchanged.{run-inputs, run-is_running}

-- Over an empty input range no run of the workers ever makes all tasks count as done.
pub empty_input_never_done :
    (sized : Bool) (chunk limit : ℕ) (es : List Event)
    → 1 ≤ chunk
    → is_all_task_done (run (fresh sized 0 chunk limit) es).scheduler.stats ≡ false
unfolding start
empty_input_never_done sized chunk limit es c =
    starved (run (fresh sized 0 chunk limit) es) (run-inputs (fresh sized 0 chunk limit) es)
      (run-Inv (fresh sized 0 chunk limit) es (fresh-Inv sized 0 chunk limit c))
  where
    starved :
        (s : System) → s.scheduler.inputs ≡ 0 → Inv s → is_all_task_done s.scheduler.stats ≡ false
    starved s e v = ground arith

-- After any events of its workers set_producer_inputs replaces the input of a scheduler and
-- resets its counters; it never refuses because the scheduler is running.
pub inputs_replaced_while_running :
    (sized : Bool) (n chunk limit : ℕ) (es : List Event) (sized' : Bool) (m : ℕ)
    → let s = (run (fresh sized n chunk limit) es).scheduler in
      set_producer_inputs sized' m s
      ≡ Scheduler.ok (record s {
        inputs = m;
        last_producer_input_it = 0;
        stats = initial (if sized' then some m else none);
      })
unfolding set_producer_inputs start
inputs_replaced_while_running sized n chunk limit es sized' m =
    ground (arith, run-is_running (fresh sized n chunk limit) es)

-- With NDEBUG, when a single-push producer pushes one value for each input of a chunk that is
-- the whole input of two or more, the scheduler counts one value, and it reports all tasks done
-- and notifies as soon as one value has been consumed.
pub single_push_ends_early :
    (n : ℕ) (g : Gate)
    → 2 ≤ n
    → accesses true n (make_gate false) ≡ Gate.ok g
    → let claimed = claim (record (make_scheduler true n) { producer_chunk_size = n }) in
      let produced = report_producer n (counted_by g) claimed.scheduler.stats in
      let consumed = report_consumer 1 produced.stats in
      (claimed.chunk ≡ some n)
      × (produced.stats.producer_output ≡ 1)
      × (is_all_task_done produced.stats ≡ false)
      × (is_all_task_done consumed.stats ≡ true)
      × (consumed.notified ≡ true)
unfolding claim report_producer report_consumer
single_push_ends_early n g h e =
    let (g', e', k) = (plain_gate_miscounts n h).1 in ground (arith, e, e', k)
