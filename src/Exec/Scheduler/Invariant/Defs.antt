-- ===== src/Exec/Scheduler/Invariant/Defs.antt =====
-- What the workers hold, and the invariant of the scheduler with its workers.
use yk_util.Base.{
  ℕ, ◌+◌, ◌≤◌, ◌≡◌, true, false, List, some, get_elem?, set, total, total-set, le-total,
  if◌then◌else◌, ◌==◌,
}
use yk_util.Exec.Stats.{is_all_task_done}
use yk_util.Exec.Scheduler.Workers.{
  producing, consuming, abandoned_producing, abandoned_consuming, crashed, Worker,
}
use yk_util.Exec.Scheduler.System.{System}
use yk_util.Exec.Scheduler.Invariant.Counters.{Inputs}

abbrev pub in_flight : Worker → ℕ
in_flight w = elim (w.phase) [
  | producing count made ↦ count
  | abandoned_producing count made ↦ count
  | _ ↦ 0
]

abbrev pub made_by : Worker → ℕ
made_by w = elim (w.phase) [
  | producing count made ↦ made
  | abandoned_producing count made ↦ made
  | _ ↦ 0
]

abbrev pub taken_by : Worker → ℕ
taken_by w = elim (w.phase) [ consuming taken ↦ taken | abandoned_consuming taken ↦ taken | _ ↦ 0 ]

-- a worker that produces, or threw, over an empty chunk
abbrev pub empty_handed : Worker → ℕ
empty_handed w = elim (w.phase) [
  | producing count made ↦ (if count == 0 then 1 else 0)
  | abandoned_producing count made ↦ (if count == 0 then 1 else 0)
  | _ ↦ 0
]

abbrev pub has_crashed : Worker → ℕ
has_crashed w = elim (w.phase) [ crashed ↦ 1 | _ ↦ 0 ]

abbrev pub has_abandoned : Worker → ℕ
has_abandoned w = elim (w.phase) [
  | abandoned_producing count made ↦ 1
  | abandoned_consuming taken ↦ 1
  | _ ↦ 0
]

pub record Inv (s : System) : Type 0 where
  pub inputs : Inputs s.scheduler (total in_flight s.workers)
  pub handed : total empty_handed s.workers ≡ 0
  pub sound : total has_crashed s.workers ≡ 0
  pub values :
      s.closed ≡ false
      → s.scheduler.stats.producer_output + total made_by s.workers
        ≡ s.queued + s.scheduler.stats.consumer_input_processed + total taken_by s.workers
  pub asked : s.stop ≡ false → total has_abandoned s.workers ≡ 0
  pub told : is_all_task_done s.scheduler.stats ≡ true → s.notified ≡ true

-- The sums, when worker `i` goes from `w` to `w'`.
pub record Sums (ws : List Worker) (i : ℕ) (w w' : Worker) : Type 0 where
  pub flight : total in_flight (set ws i w') + in_flight w ≡ total in_flight ws + in_flight w'
  pub made : total made_by (set ws i w') + made_by w ≡ total made_by ws + made_by w'
  pub taken : total taken_by (set ws i w') + taken_by w ≡ total taken_by ws + taken_by w'
  pub empty :
      total empty_handed (set ws i w') + empty_handed w ≡ total empty_handed ws + empty_handed w'
  pub crash :
      total has_crashed (set ws i w') + has_crashed w ≡ total has_crashed ws + has_crashed w'
  pub abandoned :
      total has_abandoned (set ws i w') + has_abandoned w
      ≡ total has_abandoned ws + has_abandoned w'
  pub held : in_flight w ≤ total in_flight ws
  pub handed : empty_handed w ≤ total empty_handed ws

pub sums : (ws : List Worker) (i : ℕ) (w w' : Worker) → get_elem? ws i ≡ some w → Sums ws i w w'
sums ws i w w' e = record {
  flight = total-set in_flight ws i w w' e;
  made = total-set made_by ws i w w' e;
  taken = total-set taken_by ws i w w' e;
  empty = total-set empty_handed ws i w w' e;
  crash = total-set has_crashed ws i w w' e;
  abandoned = total-set has_abandoned ws i w w' e;
  held = le-total in_flight ws i w e;
  handed = le-total empty_handed ws i w e;
}
