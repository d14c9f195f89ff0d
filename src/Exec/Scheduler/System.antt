-- ===== src/Exec/Scheduler/System.antt =====
-- The scheduler with its workers, one critical section or one queue access at a time, in any order.
-- The gates count (multi-push producers, multi-pop consumers), and the queue is the number of values
-- in it. A callback may access the queue as often as it likes, and may return or throw at any time.
use yk_util.Base.{
  ℕ, ◌+◌, ◌-◌, Bool, true, false, List, [], ◌∷◌, Option, none, some, get_elem?, set, ltb,
  if◌then◌else◌,
}
use yk_util.Exec.Stats.{returns, throws, is_all_task_done}
use yk_util.Exec.Scheduler.{Scheduler, claim, Report, report_producer, report_consumer}
use yk_util.Exec.Scheduler.Workers.{
  Mode, producer, consumer, Phase, at_head, tested, producing, consuming, finished,
  abandoned_producing, abandoned_consuming, crashed, Worker, crew, after_producer, after_consumer,
}

pub record System : Type 0 where
  pub scheduler : Scheduler
  pub workers : List Worker
  pub queued : ℕ
  pub closed : Bool  -- the queue is closed or its stop token is set
  pub stop : Bool  -- `stop_requested()` of the pool
  pub notified : Bool  -- `task_done_cv_` was notified at some time

-- What a worker may do next.
pub data Action : Type 0 where
  checks enters accesses reports raises : Action

pub data Event : Type 0 where
  worker : ℕ → Action → Event
  stops : Event  -- `worker_pool::halt`, or an exception on another thread
  closes : Event  -- `close_queue`
  aborts : Event  -- `abort`, up to where it joins the workers

-- An exception in a worker ends it, and requests a stop of the pool.
abbrev crash : System → Worker → System × Worker
crash s w = (record s { stop = true }, record w { phase = crashed })

-- The first critical section, in `producer` mode; a consumer has none.
unfoldable pub enter : Mode → System → Worker → System × Worker
enter consumer s w = (s, record w { phase = consuming 0 })
enter producer s w =
    let c = claim s.scheduler in
    let s' = record s { scheduler = c.scheduler } in
    elim (c.exit) [
      | throws e ↦ crash s' w
      | returns ↦ elim (c.chunk) [
        | none ↦ (s', record w { mode = consumer; phase = at_head })
        | some count ↦ (s', record w { phase = producing count 0 })
      ]
    ]

-- The report of a worker, once its callback has returned.
unfoldable pub finish : System → Report → Worker → Worker → System × Worker
finish s r ended went_on =
    let s' = record s {
      scheduler = record (s.scheduler) { stats = r.stats };
      notified = if r.notified then true else s.notified;
    } in
    elim (r.exit) [ throws e ↦ crash s' ended | returns ↦ (s', went_on) ]

-- What is not possible in a phase changes nothing.
unfoldable pub act : Action → Phase → System → Worker → System × Worker
unfolding enter finish
act checks at_head s w =
    (s, (if s.stop then record w { phase = finished } else record w { phase = tested }))
act enters tested s w = enter w.mode s w
act accesses (producing count made) s w =
    -- `mark_access` counts also a push that a closed queue refuses
    (
      if s.closed then s else record s { queued = s.queued + 1 },
      record w { phase = producing count (made + 1) },
    )
act reports (producing count made) s w =
    let r = report_producer count made s.scheduler.stats in
    finish s r w (after_producer r.verdict w)
act accesses (consuming taken) s w =
    -- on an empty open queue `pop_wait` does not return
    if s.closed
    then (s, record w { phase = consuming (taken + 1) })
    else if ltb 0 s.queued
    then (record s { queued = s.queued - 1 }, record w { phase = consuming (taken + 1) })
    else (s, w)
act reports (consuming taken) s w =
    let r = report_consumer taken s.scheduler.stats in finish s r w (after_consumer r.verdict w)
act raises (producing count made) s w =
    (record s { stop = true }, record w { phase = abandoned_producing count made })
act raises (consuming taken) s w =
    (record s { stop = true }, record w { phase = abandoned_consuming taken })
act _ _ s w = (s, w)

unfoldable pub act_at : System → ℕ → Action → Option Worker → System
unfolding act
act_at s i a none = s
act_at s i a (some w) = let r = act a w.phase s w in record (r.0) { workers = set s.workers i r.1 }

unfoldable pub step : System → Event → System
unfolding act_at
step s (worker i a) = act_at s i a (get_elem? s.workers i)
step s stops = record s { stop = true }
step s closes = record s { closed = true }
step s aborts = record s { closed = true; stop = true }

-- How wait_for_all_tasks returns, if it does; after a stop it closes the queue and rethrows.
pub data Waited : Type 0 where
  waits completed stopped : Waited

unfoldable pub wait_for_all_tasks : System → System × Waited
wait_for_all_tasks s =
    if s.stop
    then (record s { closed = true }, stopped)
    else if is_all_task_done s.scheduler.stats
    then (s, completed)
    else (s, waits)

unfoldable pub run : System → List Event → System
run s [] = s
run s (e ∷ es) = run (step s e) es

unfoldable pub start : Scheduler → ℕ → System
unfolding crew
start sched worker_limit = record {
  scheduler = sched;
  workers = crew worker_limit;
  queued = 0;
  closed = false;
  stop = false;
  notified = false;
}
