-- ===== src/Exec/Scheduler.antt =====
-- include/yk/exec/scheduler.hpp: the producer/consumer scheduler.
-- The two critical sections of `do_worker_producer` are `claim` and `report_producer`, that of
-- `do_worker_consumer` is `report_consumer`; what the callbacks do between them is in `Workers`.
-- The input range is its size, and an iterator into it is a position.
pub mod Workers
pub mod System
pub mod Invariant
pub mod Unchanged
pub mod Outcome
pub mod Starved
pub mod Slowing
pub mod Stopping
pub mod Whole
mod Samples
use yk_util.Base.{
  ℕ, ◌+◌, ◌-◌, min, Bool, true, false, not, ◌&&◌, Option, none, some, ltb, leb, ◌==◌, if◌then◌else◌,
}
use yk_util.Base.Int.{ℤ, pos, negsuc}
use yk_util.Exec.Stats.{
  SchedulerStats, Exit, returns, throws, initial, set_producer_input_consumed_all,
  set_producer_input_processed_all, is_all_task_done,
}

pub record Scheduler : Type 0 where
  pub inputs : ℕ
  pub last_producer_input_it : ℕ
  pub producer_chunk_size : ℕ
  pub stats : SchedulerStats

pub data InvalidArgument : Type 0 where
  running already_successful chunk_size_below_one : InvalidArgument

pub data Checked {ℓ} (R : Type ℓ) : Type ℓ where
  ok : R → Checked R
  invalid_argument : InvalidArgument → Checked R

-- A scheduler over `n` inputs, sized or not.
abbrev pub make_scheduler : Bool → ℕ → Scheduler
make_scheduler sized n = record {
  inputs = n;
  last_producer_input_it = 0;
  producer_chunk_size = 1;
  stats = initial (if sized then some n else none);
}

pub set_producer_inputs : Bool → ℕ → Scheduler → Checked Scheduler
set_producer_inputs sized n s =
    if s.stats.is_running
    then invalid_argument running
    else ok (record s {
      inputs = n;
      last_producer_input_it = 0;
      stats = initial (if sized then some n else none);
    })

pub reset_same_inputs_for_next_execution : Bool → Scheduler → Checked Scheduler
reset_same_inputs_for_next_execution sized s =
    if s.stats.is_running
    then invalid_argument running
    else ok (record s {
      last_producer_input_it = 0;
      stats = initial (if sized then some s.inputs else none);
    })

pub set_producer_chunk_size : ℤ → Scheduler → Checked Scheduler
set_producer_chunk_size (negsuc n) s = invalid_argument chunk_size_below_one
set_producer_chunk_size (pos n) s =
    if ltb n 1
    then invalid_argument chunk_size_below_one
    else ok (record s { producer_chunk_size = n })

-- The guards of `start`; what it launches is `Workers.crew`.
pub start_guard : Scheduler → Checked Scheduler
start_guard s =
    if s.stats.is_running
    then invalid_argument running
    else if s.stats.producer_input_processed_all
    then invalid_argument already_successful
    else ok s

-- `std::ranges::advance(it, n, end)`: the iterator, and how much of `n` is left
abbrev pub advance : ℕ → ℕ → ℕ → ℕ × ℕ
advance it n last = (it + min n (last - it), n - min n (last - it))

-- `chunk = none` is the early `return {}`; `some count` goes on to the callbacks.
pub record Claim : Type 0 where
  pub scheduler : Scheduler
  pub exit : Exit
  pub chunk : Option ℕ

unfoldable pub claim : Scheduler → Claim
unfolding set_producer_input_consumed_all
claim s =
    if s.last_producer_input_it == s.inputs
    then record { scheduler = s; exit = returns; chunk = none }
    else let (it_last, left) = advance s.last_producer_input_it s.producer_chunk_size s.inputs in
      let count = s.producer_chunk_size - left in
      let counted = record (s.stats) {
        producer_input_consumed = s.stats.producer_input_consumed + count;
      } in
      let flagged = set_producer_input_consumed_all counted in
      if it_last == s.inputs
      then record {
        scheduler = record s { last_producer_input_it = it_last; stats = flagged.0 };
        exit = flagged.1;
        chunk = some count;
      }
      else record {
        scheduler = record s { last_producer_input_it = it_last; stats = counted };
        exit = returns;
        chunk = some count;
      }

-- What a worker learns from its report: `return {}`, or the other value with `p_c_ratio >= 1.0`.
pub data Verdict : Type 0 where
  switch : Verdict
  still_required : Bool → Verdict

pub record Report : Type 0 where
  pub stats : SchedulerStats
  pub exit : Exit
  pub notified : Bool  -- `task_done_cv_.notify_all()`
  pub verdict : Verdict

-- `p_c_ratio >= 1.0`, where `p_c_ratio` is the quotient of the two counters, or 0.0
abbrev pub outpaces : SchedulerStats → Bool
outpaces s =
    not (s.consumer_input_processed == 0) && leb s.consumer_input_processed s.producer_output

-- The end of both critical sections that report; only the producer's looks at `consumed_all`.
unfoldable pub conclude : Bool → SchedulerStats → Report
conclude consumed_all s =
    if is_all_task_done s
    then record { stats = s; exit = returns; notified = true; verdict = switch }
    else if consumed_all
    then record { stats = s; exit = returns; notified = false; verdict = switch }
    else record {
      stats = s;
      exit = returns;
      notified = false;
      verdict = still_required (outpaces s);
    }

abbrev pub conclude_unless_thrown : SchedulerStats × Exit → Report
conclude_unless_thrown r = elim r.1 [
  | returns ↦ conclude r.0.producer_input_consumed_all r.0
  | throws e ↦ record { stats = r.0; exit = throws e; notified = false; verdict = switch }
]

-- `count` inputs were processed, and `made` is what the gate adds to `producer_output`.
unfoldable pub report_producer : ℕ → ℕ → SchedulerStats → Report
unfolding set_producer_input_processed_all conclude
report_producer count made s =
    let added = record s {
      producer_input_processed = s.producer_input_processed + count;
      producer_output = s.producer_output + made;
    } in
    if added.producer_input_consumed_all
      && leb added.producer_input_consumed added.producer_input_processed
    then conclude_unless_thrown (set_producer_input_processed_all added)
    else conclude added.producer_input_consumed_all added

unfoldable pub report_consumer : ℕ → SchedulerStats → Report
unfolding conclude
report_consumer taken s =
    conclude false (record s { consumer_input_processed = s.consumer_input_processed + taken })
