-- ===== src/Exec/Stats.antt =====
-- include/yk/exec/scheduler_stats.hpp: the counters that the workers of a scheduler share.
-- `none` in `producer_input_total` is UNPREDICTABLE. The counters are `long long`; they count inputs
-- and values that exist in memory, and are numbers without a bound here.
use yk_util.Base.{
  ℕ, ◌^◌, ◌-◌, Bool, true, false, not, ◌&&◌, ◌||◌, Option, none, some, ltb, ◌==◌, if◌then◌else◌,
}

pub record SchedulerStats : Type 0 where
  pub is_running : Bool
  pub producer_input_total : Option ℕ
  pub producer_input_consumed : ℕ
  pub producer_input_processed : ℕ
  pub producer_output : ℕ
  pub consumer_input_processed : ℕ
  pub producer_input_consumed_all : Bool
  pub producer_input_processed_all : Bool

-- The exceptions that the scheduler throws at itself.
pub data LogicError : Type 0 where
  consumed_all_twice processed_all_twice count_mismatch : LogicError

-- How a call ends. What it wrote before it threw stays written.
pub data Exit : Type 0 where
  returns : Exit
  throws : LogicError → Exit

abbrev pub initial : Option ℕ → SchedulerStats
initial total = record {
  is_running = false;
  producer_input_total = total;
  producer_input_consumed = 0;
  producer_input_processed = 0;
  producer_output = 0;
  consumer_input_processed = 0;
  producer_input_consumed_all = false;
  producer_input_processed_all = false;
}

-- `scheduler_stats(ProducerInputRangeT const&)`: `some n` is the size of a sized range. `none` as
-- the result is "too many producer inputs".
pub create : Option ℕ → Option SchedulerStats
create none = some (initial none)
create (some n) = if ltb (2 ^ 63 - 1) n then none else some (initial (some n))

abbrev pub bool_eq : Bool → Bool → Bool
bool_eq true b = b
bool_eq false b = not b

unfoldable pub same_count : SchedulerStats → SchedulerStats → Bool
same_count s o =
    bool_eq s.producer_input_consumed_all o.producer_input_consumed_all
    && s.producer_input_consumed == o.producer_input_consumed
    && s.producer_input_processed == o.producer_input_processed
    && s.producer_output == o.producer_output
    && s.consumer_input_processed == o.consumer_input_processed

unfoldable pub count_updated : SchedulerStats → SchedulerStats → Bool
unfolding same_count
count_updated s o = not (same_count s o) || not (bool_eq s.is_running o.is_running)

unfoldable pub set_producer_input_consumed_all : SchedulerStats → SchedulerStats × Exit
set_producer_input_consumed_all s =
    if s.producer_input_consumed_all
    then (s, throws consumed_all_twice)
    else (record s { producer_input_consumed_all = true }, returns)

-- whether `total` is known and is not `n`
abbrev pub differs : Option ℕ → ℕ → Bool
differs none n = false
differs (some total) n = not (n == total)

unfoldable pub set_producer_input_processed_all : SchedulerStats → SchedulerStats × Exit
set_producer_input_processed_all s =
    if s.producer_input_processed_all then (s, throws processed_all_twice) else (
      record s { producer_input_processed_all = true },
      (if differs s.producer_input_total s.producer_input_processed
          then throws count_mismatch
          else returns),
    )

abbrev pub is_consumer_input_processed_all : SchedulerStats → Bool
is_consumer_input_processed_all s = s.consumer_input_processed == s.producer_output

abbrev pub is_all_task_done : SchedulerStats → Bool
is_all_task_done s = s.producer_input_processed_all && is_consumer_input_processed_all s
