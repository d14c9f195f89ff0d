-- ===== src/Exec/Tracker/Samples.antt =====
-- A tracker over two executions, the second of which makes less.
use yk_util.Base.{ℕ, ◌≡◌, refl, false, List, [], ◌∷◌, none, some}
use yk_util.Base.Int.{pos, negsuc}
use yk_util.Exec.Stats.{SchedulerStats, initial, count_updated, same_count}
use yk_util.Exec.Tracker.{
  delta_stats, Tracker, create, tick_at, Round, round, rounds, launch_stats_tracker,
  wait_for_all_tasks, reset_first_tick, interval_elapsed,
}
use yk_util.Exec.Tracker.Deltas.{Execution, execute, executions, last_final, Sums, deltas_add_up}

abbrev counters : ℕ → ℕ → SchedulerStats
counters output processed = record (initial none) {
  producer_output = output;
  consumer_input_processed = processed;
}

abbrev begun_at : ℕ → ℕ → ℕ → Round
begun_at now output processed = record {
  pool_stops = false;
  stops = false;
  woken = now;
  now = now;
  stats = counters output processed;
  thrown = none;
}

abbrev two_executions : List Execution
two_executions =
    record {
      started = 9000;
      rounds_of = begun_at 9000 2 1 ∷ begun_at 9500 5 1 ∷ [];
      ended = 9700;
      final = counters 5 5;
    }
    ∷ record { started = 20000; rounds_of = []; ended = 20100; final = counters 3 3 }
    ∷ []

-- The interval counts as elapsed when the thread begins, and the time of the first report is that
-- since the epoch. A wait that ends before its interval ends the thread.
first_report :
    (rounds
      (begun_at 9000 2 1 ∷ begun_at 9500 5 1 ∷ [])
      (launch_stats_tracker 9000 (create 1000) none)).tracker.reports
    ≡ (record { delta = 9000; producer_output_delta = pos 2; consumer_process_delta = pos 1 } ∷ [])
unfolding rounds round launch_stats_tracker reset_first_tick create tick_at interval_elapsed
    delta_stats count_updated same_count
first_report = refl

-- The report of the second execution is measured against the first one.
last_report :
    executions
      (record { started = 9000; rounds_of = []; ended = 9700; final = counters 5 5 }
        ∷ record { started = 20000; rounds_of = []; ended = 20100; final = counters 3 3 }
        ∷ [])
      (create 1000)
    ≡ some (record (create 1000) {
      first_tick = 20000;
      tick = 20100;
      last_tick = 20100;
      stats = counters 3 3;
      prev_stats = counters 3 3;
      delta_stats = record {
        delta = 10400;
        producer_output_delta = negsuc 1;
        consumer_process_delta = negsuc 1;
      };
      reports =
          record { delta = 9700; producer_output_delta = pos 5; consumer_process_delta = pos 5 }
          ∷ record {
            delta = 10400;
            producer_output_delta = negsuc 1;
            consumer_process_delta = negsuc 1;
          }
          ∷ [];
    })
unfolding execute rounds round launch_stats_tracker wait_for_all_tasks reset_first_tick create
    tick_at interval_elapsed delta_stats count_updated same_count
last_report = refl

deltas_add_up_example :
    (t : Tracker) × (executions two_executions (create 1000) ≡ some t)
    × Sums
        (λ d. d.producer_output_delta)
        t.reports
        (last_final (initial none) two_executions).producer_output
    × Sums
        (λ d. d.consumer_process_delta)
        t.reports
        (last_final (initial none) two_executions).consumer_input_processed
deltas_add_up_example = deltas_add_up 1000 two_executions refl
