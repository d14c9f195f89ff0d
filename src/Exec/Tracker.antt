-- ===== src/Exec/Tracker.antt =====
-- include/yk/exec/scheduler_stats_tracker.hpp and scheduler_delta_stats.hpp, and what scheduler.hpp
-- does with a tracker: the thread that ticks, and the last tick of wait_for_all_tasks. Times are
-- nanoseconds since the epoch of the clock, and what the clock reads is an argument. A rate is kept
-- as its two parts, a difference of counters and the time it took.
pub mod Deltas
mod Samples
use yk_util.Base.{
  ℕ, ◌-◌, Bool, true, false, not, ◌&&◌, ◌||◌, Option, none, some, List, [], ◌∷◌, ◌++◌, leb,
  if◌then◌else◌,
}
use yk_util.Base.Int.{ℤ, pos, sub_ℕ}
use yk_util.Exec.Stats.{SchedulerStats, initial, count_updated}

-- `scheduler_delta_stats`
pub record DeltaStats : Type 0 where
  pub delta : ℕ
  pub producer_output_delta : ℤ
  pub consumer_process_delta : ℤ

-- Its constructors
abbrev pub no_delta : DeltaStats
no_delta = record { delta = 0; producer_output_delta = pos 0; consumer_process_delta = pos 0 }

unfoldable pub delta_stats : ℕ → SchedulerStats → SchedulerStats → DeltaStats
delta_stats delta prev_stats stats = record {
  delta = delta;
  producer_output_delta = sub_ℕ stats.producer_output prev_stats.producer_output;
  consumer_process_delta = sub_ℕ stats.consumer_input_processed prev_stats.consumer_input_processed;
}

-- `scheduler_stats_tracker`, with the reports that its callback was called with.
pub record Tracker : Type 0 where
  pub interval : ℕ
  pub callback : Bool
  pub first_tick : ℕ
  pub tick : ℕ
  pub last_tick : ℕ
  pub stats : SchedulerStats
  pub prev_stats : SchedulerStats
  pub delta_stats : DeltaStats
  pub reports : List DeltaStats

-- The constructor from an interval and a callback
unfoldable pub create : ℕ → Tracker
create interval = record {
  interval = interval;
  callback = true;
  first_tick = 0;
  tick = 0;
  last_tick = 0;
  stats = initial none;
  prev_stats = initial none;
  delta_stats = no_delta;
  reports = [];
}

unfoldable pub reset_first_tick : ℕ → Tracker → Tracker
reset_first_tick now t = record t { first_tick = now; delta_stats = no_delta }

unfoldable pub interval_elapsed : ℕ → Tracker → Bool
interval_elapsed now t = leb t.interval (now - t.last_tick)

-- `tick`: `thrown` is what a call of the callback throws, the result what leaves the call.
unfoldable pub tick_at : ℕ → SchedulerStats → Option ℕ → Tracker → Tracker × Option ℕ
unfolding delta_stats
tick_at now stats thrown t =
    let begun = record t { tick = now; stats = stats } in
    let d = delta_stats (now - t.last_tick) t.prev_stats stats in
    let called = record begun { delta_stats = d; reports = t.reports ++ (d ∷ []) } in
    if t.callback && count_updated stats t.prev_stats
    then elim thrown [
      | none ↦ (record called { last_tick = now; prev_stats = stats }, none)
      | some e ↦ (called, some e)
    ]
    else (record begun { last_tick = now; prev_stats = stats }, none)

-- What one round of the thread of launch_stats_tracker finds: whether the pool and the thread are
-- asked to stop, when the wait ends, and what the tick after it reads.
pub record Round : Type 0 where
  pub pool_stops : Bool
  pub stops : Bool
  pub woken : ℕ
  pub now : ℕ
  pub stats : SchedulerStats
  pub thrown : Option ℕ

-- The thread, with `stats_tracker_exception_`. It ends at a stop, at a wait that times out without
-- its interval elapsed, and at an exception.
pub record Thread : Type 0 where
  pub tracker : Tracker
  pub exception : Option ℕ
  pub ended : Bool

-- The handler around the rounds keeps the exception of a tick.
abbrev pub keep : Tracker × Option ℕ → Thread → Thread
keep (t, none) th = record th { tracker = t }
keep (t, some e) th = record { tracker = t; exception = some e; ended = true }

unfoldable pub round : Round → Thread → Thread
unfolding tick_at interval_elapsed
round r th =
    if th.ended || r.pool_stops || r.stops || not (interval_elapsed r.woken th.tracker)
    then record th { ended = true }
    else keep (tick_at r.now r.stats r.thrown th.tracker) th

unfoldable pub rounds : List Round → Thread → Thread
unfolding round
rounds [] th = th
rounds (r ∷ rs) th = rounds rs (round r th)

-- launch_stats_tracker: the clock is read once, and the thread starts with its rounds.
unfoldable pub launch_stats_tracker : ℕ → Tracker → Option ℕ → Thread
unfolding reset_first_tick
launch_stats_tracker now t exception = record {
  tracker = reset_first_tick now t;
  exception = exception;
  ended = false;
}

-- The part of wait_for_all_tasks that concerns a tracker: the thread has been joined, an exception
-- it left is thrown, and else the last tick is made with the counters of the end.
abbrev pub leave : Option ℕ → Tracker × Option ℕ → Thread → Thread × Option ℕ
leave none (t, e) th = (record th { tracker = t; ended = true }, e)
leave (some e) ticked th = (record th { exception = none; ended = true }, some e)

unfoldable pub wait_for_all_tasks : ℕ → SchedulerStats → Option ℕ → Thread → Thread × Option ℕ
unfolding tick_at
wait_for_all_tasks now prev_stats thrown th =
    leave th.exception (tick_at now prev_stats thrown th.tracker) th
