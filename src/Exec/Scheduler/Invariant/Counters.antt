-- ===== src/Exec/Scheduler/Invariant/Counters.antt =====
-- What the critical sections of a worker do to the counters.
use yk_util.Base.{ℕ, ◌+◌, ◌≤◌, ◌<◌, ◌≡◌, false, ◌&&◌, none, some, arith, ltb, ◌==◌}
use yk_util.Exec.Stats.{returns, differs, is_all_task_done}
use yk_util.Exec.Scheduler.{Scheduler, Claim, claim, Report, report_producer, report_consumer}

-- The input side: `flight` inputs are with the workers.
pub record Inputs (sched : Scheduler) (flight : ℕ) : Type 0 where
  pub chunk : 1 ≤ sched.producer_chunk_size
  pub within : sched.last_producer_input_it ≤ sched.inputs
  pub consumed : sched.stats.producer_input_consumed ≡ sched.last_producer_input_it
  pub processed :
      sched.stats.producer_input_processed + flight ≡ sched.stats.producer_input_consumed
  pub sized : differs sched.stats.producer_input_total sched.inputs ≡ false
  pub consumed_all :
      sched.stats.producer_input_consumed_all
      ≡ ((sched.last_producer_input_it == sched.inputs) && ltb 0 sched.inputs)
  pub processed_all :
      sched.stats.producer_input_processed_all
      ≡ (sched.stats.producer_input_consumed_all && flight == 0)

-- A claim that hands out a chunk hands out at least one input, and throws nothing.
pub record Claimed (sched : Scheduler) (flight : ℕ) (c : Claim) : Type 0 where
  pub no_throw : c.exit ≡ returns
  pub output : c.scheduler.stats.producer_output ≡ sched.stats.producer_output
  pub taken : c.scheduler.stats.consumer_input_processed ≡ sched.stats.consumer_input_processed
  pub kept : c.chunk ≡ none → c.scheduler ≡ sched
  pub undone :
      (count : ℕ) → c.chunk ≡ some count → c.scheduler.stats.producer_input_processed_all ≡ false
  pub some_input : (count : ℕ) → c.chunk ≡ some count → 0 < count
  pub inputs : (count : ℕ) → c.chunk ≡ some count → Inputs c.scheduler (flight + count)

pub claim-Claimed :
    (sched : Scheduler) (flight : ℕ) → Inputs sched flight → Claimed sched flight (claim sched)
unfolding claim
claim-Claimed sched flight v = record {
  no_throw = ground arith;
  output = ground arith;
  taken = ground arith;
  kept = ground arith;
  undone = λ count e. ground arith;
  some_input = λ count e. ground arith;
  inputs = λ count e. ground arith;
}

pub record Reported (sched : Scheduler) (rest made taken : ℕ) (r : Report) : Type 0 where
  pub no_throw : r.exit ≡ returns
  pub output : r.stats.producer_output ≡ sched.stats.producer_output + made
  pub taken_in : r.stats.consumer_input_processed ≡ sched.stats.consumer_input_processed + taken
  pub inputs : Inputs (record sched { stats = r.stats }) rest
  pub told : r.notified ≡ is_all_task_done r.stats

pub report_producer-Reported :
    (sched : Scheduler) (rest count made : ℕ)
    → 0 < count
    → Inputs sched (rest + count)
    → Reported sched rest made 0 (report_producer count made sched.stats)
unfolding report_producer
report_producer-Reported sched rest count made pos v = record {
  no_throw = ground arith;
  output = ground arith;
  taken_in = ground arith;
  inputs = ground arith;
  told = ground arith;
}

pub report_consumer-Reported :
    (sched : Scheduler) (flight taken : ℕ)
    → Inputs sched flight
    → Reported sched flight 0 taken (report_consumer taken sched.stats)
unfolding report_consumer
report_consumer-Reported sched flight taken v = record {
  no_throw = ground arith;
  output = ground arith;
  taken_in = ground arith;
  inputs = ground arith;
  told = ground arith;
}
