-- ===== src/Exec/Scheduler/Samples.antt =====
-- A run of a scheduler with two workers over three inputs, and the theorems at it.
use yk_util.Base.{
  ◌≡◌, ◌≢◌, refl, true, false, List, [], ◌∷◌, some, arith, total, if◌then◌else◌, length, ◌+◌, ◌*◌,
  ◌≤◌,
}
use yk_util.Exec.Gate.{make_gate, mark_access, counted_by}
use yk_util.Exec.Gate
use yk_util.Exec.Gate.Counting.{accesses, counted_gate_counts}
use yk_util.Exec.Stats.{is_all_task_done}
use yk_util.Exec.Scheduler.{make_scheduler, claim, conclude, report_producer, report_consumer}
use yk_util.Exec.Scheduler.Workers.{
  crashed, finished, abandoned_producing, Worker, Kind, Mode, after_producer, after_consumer,
}
use yk_util.Exec.Scheduler.System.{Event, worker, checks, enters, reports, act, run, step, start}
use yk_util.Exec.Scheduler.System
use yk_util.Exec.Scheduler.Invariant.{fresh, taken_by}
use yk_util.Exec.Scheduler.Outcome.{
  workers_do_not_throw, done_means_complete, complete_means_done, raised_means_stopped,
}
use yk_util.Exec.Scheduler.Stopping.{
  stop_bounds_claims, stopped_workers_end, Move, turn, event, play, has_ended,
}
use yk_util.Exec.Scheduler.Starved.{empty_input_never_done, single_push_ends_early}

-- Worker 1 produces from chunks of two inputs; worker 0 consumes meanwhile.
abbrev events : List Event
events =
    worker 1 checks
    ∷ worker 1 enters
    ∷ worker 0 checks
    ∷ worker 0 enters
    ∷ worker 1 System.accesses
    ∷ worker 0 System.accesses
    ∷ worker 1 System.accesses
    ∷ worker 0 reports
    ∷ worker 1 reports
    ∷ worker 1 checks
    ∷ worker 1 enters
    ∷ worker 1 System.accesses
    ∷ worker 1 reports
    ∷ worker 0 checks
    ∷ worker 0 enters
    ∷ worker 0 System.accesses
    ∷ worker 0 System.accesses
    ∷ worker 0 reports
    ∷ []

all_done :
    (is_all_task_done (run (fresh true 3 2 2) events).scheduler.stats ≡ true)
    × ((run (fresh true 3 2 2) events).scheduler.stats.producer_output ≡ 3)
unfolding run step start act claim conclude report_producer report_consumer after_producer
    after_consumer
all_done = (refl, refl)

abbrev consumer_left : Worker
consumer_left = record { kind = Kind.fixed_consumer; mode = Mode.consumer; phase = finished }

workers_do_not_throw_example : consumer_left.phase ≢ crashed
unfolding run step start act claim conclude report_producer report_consumer after_producer
    after_consumer
workers_do_not_throw_example =
    workers_do_not_throw true 3 2 2 events 0 consumer_left (omega arith) refl

done_means_complete_example :
    ((run (fresh true 3 2 2) events).scheduler.stats.producer_input_processed ≡ 3)
    × ((run (fresh true 3 2 2) events).queued ≡ 0)
    × (total taken_by (run (fresh true 3 2 2) events).workers ≡ 0)
    × ((run (fresh true 3 2 2) events).scheduler.stats.consumer_input_processed
        ≡ (run (fresh true 3 2 2) events).scheduler.stats.producer_output)
    × ((run (fresh true 3 2 2) events).notified ≡ true)
unfolding run step start act claim conclude report_producer report_consumer after_producer
    after_consumer
done_means_complete_example = done_means_complete true 3 2 2 events (omega arith) refl refl

complete_means_done_example :
    (is_all_task_done (run (fresh true 3 2 2) events).scheduler.stats ≡ true)
    × ((run (fresh true 3 2 2) events).notified ≡ true)
    × ((System.wait_for_all_tasks (run (fresh true 3 2 2) events)).1
        ≡ (if (run (fresh true 3 2 2) events).stop then System.stopped else System.completed))
unfolding run step start act claim conclude report_producer report_consumer after_producer
    after_consumer
complete_means_done_example =
    complete_means_done true 3 2 2 events (omega arith) (omega arith) refl refl refl refl refl

empty_input_never_done_example :
    is_all_task_done (run (fresh true 0 2 2) events).scheduler.stats ≡ false
empty_input_never_done_example = empty_input_never_done true 2 2 events (omega arith)

single_push_ends_early_example :
    let claimed = claim (record (make_scheduler true 2) { producer_chunk_size = 2 }) in
    let produced = report_producer 2 (counted_by (make_gate false)) claimed.scheduler.stats in
    let consumed = report_consumer 1 produced.stats in
    (claimed.chunk ≡ some 2)
    × (produced.stats.producer_output ≡ 1)
    × (is_all_task_done produced.stats ≡ false)
    × (is_all_task_done consumed.stats ≡ true)
    × (consumed.notified ≡ true)
unfolding accesses mark_access
single_push_ends_early_example = single_push_ends_early 2 (make_gate false) (omega arith) refl

counted_gate_counts_example :
    (g : Gate.Gate) × (accesses true 3 (make_gate true) ≡ Gate.ok g) × (counted_by g ≡ 3)
counted_gate_counts_example = counted_gate_counts true 3

-- Worker 1 claims two inputs, pushes a value, and its callback throws.
abbrev raising : List Event
raising =
    worker 0 checks
    ∷ worker 1 checks
    ∷ worker 1 enters
    ∷ worker 1 System.accesses
    ∷ worker 1 System.raises
    ∷ []

abbrev producer_left : Worker
producer_left = record {
  kind = Kind.fixed_producer;
  mode = Mode.producer;
  phase = abandoned_producing 2 1;
}

raised_means_stopped_example :
    (is_all_task_done (run (fresh true 3 2 2) raising).scheduler.stats ≡ false)
    × ((System.wait_for_all_tasks (run (fresh true 3 2 2) raising)).1 ≡ System.stopped)
unfolding run step start act claim
raised_means_stopped_example =
    raised_means_stopped true 3 2 2 raising 1 producer_left (omega arith) refl refl refl
      (omega arith)

-- A stop request between the test of worker 1 and its claim
abbrev stopping : List Event
stopping = worker 0 checks ∷ worker 1 checks ∷ System.stops ∷ []

abbrev going_on : List Event
going_on = worker 1 enters ∷ worker 1 reports ∷ worker 1 checks ∷ worker 1 enters ∷ []

last_claim :
    (run (run (fresh true 3 2 2) stopping) going_on).scheduler.stats.producer_input_consumed ≡ 2
unfolding run step start act claim report_producer conclude after_producer
last_claim = refl

stop_bounds_claims_example :
    (run (run (fresh true 3 2 2) stopping) going_on).scheduler.stats.producer_input_consumed
    ≤ (run (fresh true 3 2 2) stopping).scheduler.stats.producer_input_consumed
      + length (run (fresh true 3 2 2) stopping).workers
        * (run (fresh true 3 2 2) stopping).scheduler.producer_chunk_size
unfolding run step start
stop_bounds_claims_example = stop_bounds_claims (run (fresh true 3 2 2) stopping) going_on refl

abbrev moves : List Move
moves = turn 1 ∷ turn 0 ∷ turn 0 ∷ event (worker 0 System.accesses) ∷ turn 0 ∷ []

stopped_workers_end_example : has_ended finished ≡ true
unfolding run step start act play report_consumer conclude after_consumer claim
stopped_workers_end_example =
    stopped_workers_end (run (fresh true 3 2 2) stopping) moves 0 consumer_left refl (omega arith)
      refl
