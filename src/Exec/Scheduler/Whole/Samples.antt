-- ===== src/Exec/Scheduler/Whole/Samples.antt =====
-- Two workers over three inputs and a queue that holds one value at most.
use mathlib.Core.List.{Perm}
use yk_util.Base.{ℕ, ◌≡◌, refl, true, false, List, [], ◌∷◌, total, arith}
use yk_util.Exec.CvQueue.{
  do_push, do_pop, push, pop, pop_notify, push_wait_cond, pop_wait_cond, push_wait, pop_wait,
}
use yk_util.Exec.CvQueue.Flags.{Traits}
use yk_util.Exec.Stats.{is_all_task_done}
use yk_util.Exec.Scheduler.{claim, conclude, report_producer, report_consumer}
use yk_util.Exec.Scheduler.Workers.{after_producer, after_consumer}
use yk_util.Exec.Scheduler.System.{worker, checks, enters, reports, act, step, start}
use yk_util.Exec.Scheduler.Invariant.{taken_by}
use yk_util.Exec.Scheduler.Whole.{Happening, event, access, history, happen, access_in, access_at}
use yk_util.Exec.CvQueue.Run
use yk_util.Exec.Scheduler.Whole.Values.{queue_history, all_values_arrive}
use yk_util.Exec.Scheduler.Whole.Complete.{whole_start, whole_done_means_complete}

abbrev traits : Traits
traits = record {
  is_multi_producer = true;
  is_multi_consumer = true;
  is_queue_based_push_pop = true;
}

-- The second push of worker 1 waits until worker 0 has popped.
abbrev happenings : List (Happening ℕ)
happenings =
    event (worker 1 checks)
    ∷ event (worker 1 enters)
    ∷ event (worker 0 checks)
    ∷ event (worker 0 enters)
    ∷ access 1 5
    ∷ access 1 6
    ∷ access 0 0
    ∷ access 1 6
    ∷ event (worker 0 reports)
    ∷ event (worker 1 reports)
    ∷ event (worker 1 checks)
    ∷ event (worker 1 enters)
    ∷ event (worker 1 reports)
    ∷ event (worker 0 checks)
    ∷ event (worker 0 enters)
    ∷ access 0 0
    ∷ event (worker 0 reports)
    ∷ []

all_used_up :
    is_all_task_done (history traits happenings (whole_start true 3 2 2 1)).scheduler.stats ≡ true
unfolding history happen access_in access_at whole_start step act start claim conclude
    report_producer report_consumer after_producer after_consumer push_wait pop_wait push pop
    do_push do_pop pop_notify push_wait_cond pop_wait_cond
all_used_up = refl

still_open : (history traits happenings (whole_start true 3 2 2 1)).queue.closed ≡ false
unfolding history happen access_in access_at whole_start step act start claim conclude
    report_producer report_consumer after_producer after_consumer push_wait pop_wait push pop
    do_push do_pop pop_notify push_wait_cond pop_wait_cond
still_open = refl

whole_done_means_complete_example :
    ((history traits happenings (whole_start true 3 2 2 1)).scheduler.stats.producer_input_processed
      ≡ 3)
    × ((history traits happenings (whole_start true 3 2 2 1)).queue.buf ≡ [])
    × (total taken_by (history traits happenings (whole_start true 3 2 2 1)).workers ≡ 0)
    × ((history traits happenings (whole_start true 3 2 2 1)
          ).scheduler.stats.consumer_input_processed
        ≡ (history traits happenings (whole_start true 3 2 2 1)).scheduler.stats.producer_output)
    × ((history traits happenings (whole_start true 3 2 2 1)).notified ≡ true)
whole_done_means_complete_example =
    whole_done_means_complete traits true 3 2 2 1 happenings (omega arith) still_open all_used_up

values_delivered : (queue_history traits true 3 2 2 1 happenings).delivered ≡ 5 ∷ 6 ∷ []
unfolding happen access_in access_at whole_start step act start claim conclude report_producer
    report_consumer after_producer after_consumer push_wait pop_wait push pop do_push do_pop
    pop_notify push_wait_cond pop_wait_cond Run.run Run.step Run.start
values_delivered = refl

all_values_arrive_example :
    ((queue_history traits true 3 2 2 1 happenings).queue
      ≡ (history traits happenings (whole_start true 3 2 2 1)).queue)
    × Perm
        (queue_history traits true 3 2 2 1 happenings).accepted
        (queue_history traits true 3 2 2 1 happenings).delivered
all_values_arrive_example =
    all_values_arrive traits true 3 2 2 1 happenings (omega arith) still_open all_used_up
