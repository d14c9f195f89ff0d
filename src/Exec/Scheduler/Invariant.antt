-- ===== src/Exec/Scheduler/Invariant.antt =====
-- What every event keeps: the counters add up with what the workers hold, the two flags say what
-- they mean, and no worker has thrown.
mod Counters
mod Defs
mod Steps
mod Moves
pub use Counters.{Inputs}
pub use Defs.*
use Moves.{act-Inv}
use yk_util.Base.{
  ℕ, zero, suc, ◌-◌, ◌≤◌, ◌≡◌, refl, Bool, List, [], ◌∷◌, Option, none, some, arith, get_elem?,
  total,
}
use yk_util.Exec.Scheduler.{make_scheduler}
use yk_util.Exec.Scheduler.Workers.{producer, Worker, crew, launch, launch_rest, dynamic_worker}
use yk_util.Exec.Scheduler.System.{
  System, Action, Event, worker, stops, closes, aborts, act_at, step, run, start,
}

act_at-Inv :
    (s : System) (i : ℕ) (a : Action) (o : Option Worker)
    → get_elem? s.workers i ≡ o
    → Inv s
    → Inv (act_at s i a o)
unfolding act_at
act_at-Inv s i a none e v = v
act_at-Inv s i a (some w) e v = act-Inv a w.phase s i w refl e v

-- Every event of a worker, exceptions of its callback included, a stop request, the closing of
-- the queue and abort keep the invariant of the scheduler: the counters add up with what the
-- workers hold, consumed_all holds exactly when a non-empty input is used up, processed_all
-- exactly when no input is in flight besides, no worker has ended by an exception of the
-- bookkeeping, a stop was requested if a callback has thrown, and once all tasks are done the
-- waiting thread has been notified.
pub step-Inv : (s : System) (e : Event) → Inv s → Inv (step s e)
unfolding step
step-Inv s (worker i a) v = act_at-Inv s i a (get_elem? s.workers i) refl v
step-Inv s stops v = ground arith
step-Inv s closes v = ground arith
step-Inv s aborts v = ground arith

pub run-Inv : (s : System) (es : List Event) → Inv s → Inv (run s es)
unfolding run
run-Inv s [] v = v
run-Inv s (e ∷ es) v = run-Inv (step s e) es (step-Inv s e v)

-- A crew that has just been launched holds nothing.
total-launch_rest :
    (f : Worker → ℕ) (n : ℕ) → f (launch dynamic_worker producer) ≡ 0 → total f (launch_rest n) ≡ 0
unfolding launch_rest
total-launch_rest f zero h = refl
total-launch_rest f (suc n) h = omega (arith, total-launch_rest f n h)

abbrev pub fresh : Bool → ℕ → ℕ → ℕ → System
fresh sized inputs chunk limit =
    start (record (make_scheduler sized inputs) { producer_chunk_size = chunk }) limit

pub fresh-Inv : (sized : Bool) (n chunk limit : ℕ) → 1 ≤ chunk → Inv (fresh sized n chunk limit)
unfolding start crew
fresh-Inv sized n chunk limit h = record {
  inputs = ground (arith, total-launch_rest in_flight (limit - 2) refl);
  handed = omega (arith, total-launch_rest empty_handed (limit - 2) refl);
  sound = omega (arith, total-launch_rest has_crashed (limit - 2) refl);
  values = λ o. omega (
    arith,
    total-launch_rest made_by (limit - 2) refl,
    total-launch_rest taken_by (limit - 2) refl,
  );
  asked = λ h. omega (arith, total-launch_rest has_abandoned (limit - 2) refl);
  told = ground arith;
}
