-- ===== src/Exec/Scheduler/Whole.antt =====
-- The scheduler over a `cv_queue`, whose calls the accesses of the workers are. `view` forgets the
-- values in the queue and the threads that sleep on it.
pub mod Simulates
pub mod Complete
pub mod Values
mod Samples
use yk_util.Base.{ℕ, ◌+◌, Bool, true, List, [], ◌∷◌, Option, none, some, get_elem?, set, length}
use yk_util.Exec.CvQueue.{CvQueue, Outcome, returned, push_wait, pop_wait, close}
use yk_util.Exec.CvQueue.Flags.{Traits}
use yk_util.Exec.Scheduler.{Scheduler}
use yk_util.Exec.Scheduler.Workers.{Phase, producing, consuming, Worker}
use yk_util.Exec.Scheduler.System.{System, accesses, Event, worker, stops, closes, aborts, step}

pub record Whole (A : Type 0) : Type 0 where
  pub scheduler : Scheduler
  pub workers : List Worker
  pub queue : CvQueue A
  pub stop : Bool
  pub notified : Bool

-- An event of the scheduler, or an access of a worker, with the value that it pushes if it does. The
-- events `accesses` say no value and do nothing here.
pub data Happening (A : Type 0) : Type 0 where
  event : Event → Happening A
  access : ℕ → A → Happening A

abbrev pub view : {A : Type 0} → Whole A → System
view w = record {
  scheduler = w.scheduler;
  workers = w.workers;
  queued = length w.queue.buf;
  closed = w.queue.closed;
  stop = w.stop;
  notified = w.notified;
}

-- What the events that do not concern the queue change.
abbrev pub keeps_queue : {A : Type 0} → CvQueue A → System → Whole A
keeps_queue q s = record {
  scheduler = s.scheduler;
  workers = s.workers;
  queue = q;
  stop = s.stop;
  notified = s.notified;
}

-- A call that has not returned leaves its worker where it is.
abbrev pub ends_access :
    {A : Type 0} {R : Type 0} → ℕ → Worker → Phase → CvQueue A × Outcome R → Whole A → Whole A
ends_access i wk p (q, returned r) w = record w {
  queue = q;
  workers = set w.workers i (record wk { phase = p });
}
ends_access i wk p (q, _) w = record w { queue = q }

module _ {A : Type 0} (t : Traits) where
  unfoldable pub access_in : Phase → ℕ → A → Worker → Whole A → Whole A
  access_in (producing count made) i x wk w =
      ends_access i wk (producing count (made + 1)) (push_wait t w.queue x) w
  access_in (consuming taken) i x wk w =
      ends_access i wk (consuming (taken + 1)) (pop_wait t w.queue) w
  access_in _ i x wk w = w

  unfoldable pub access_at : ℕ → A → Option Worker → Whole A → Whole A
  unfolding access_in
  access_at i x none w = w
  access_at i x (some wk) w = access_in wk.phase i x wk w

  unfoldable pub happen : Happening A → Whole A → Whole A
  unfolding access_at close step
  happen (event (worker i accesses)) w = w
  happen (event (worker i a)) w = keeps_queue w.queue (step (view w) (worker i a))
  happen (event stops) w = record w { stop = true }
  happen (event closes) w = record w { queue = close w.queue }
  happen (event aborts) w = record w { queue = close w.queue; stop = true }
  happen (access i x) w = access_at i x (get_elem? w.workers i) w

  unfoldable pub history : List (Happening A) → Whole A → Whole A
  unfolding happen
  history [] w = w
  history (h ∷ hs) w = history hs (happen h w)
