-- ===== src/Exec/Scheduler/Invariant/Steps.antt =====
-- The parts of a move: a worker that holds nothing goes on, claims inputs, or ends.
use yk_util.Base.{
  ℕ, ◌+◌, ◌≡◌, ◌≤◌, true, false, none, some, arith, inl, inr, Option-cases, get_elem?, set, total,
  if◌then◌else◌,
}
use yk_util.Exec.Stats.{returns}
use yk_util.Exec.Scheduler.{claim, Report, Verdict}
use yk_util.Exec.Scheduler.Workers.{
  producer, consumer, at_head, tested, producing, Worker, after_producer,
}
use yk_util.Exec.Scheduler.System.{System, enter, finish}
use yk_util.Exec.Scheduler.Invariant.Defs.{
  in_flight, made_by, taken_by, empty_handed, has_crashed, has_abandoned, Inv, sums,
}
use yk_util.Exec.Scheduler.Invariant.Counters.{Claimed, claim-Claimed, Reported}

-- A worker that goes between phases in which it holds nothing.
pub idle_move-Inv :
    (s : System) (i : ℕ) (w w' : Worker)
    → get_elem? s.workers i ≡ some w
    → Inv s
    → (in_flight w' ≡ in_flight w)
      × (made_by w' ≡ made_by w)
      × (taken_by w' ≡ taken_by w)
      × (empty_handed w' ≡ empty_handed w)
      × (has_crashed w' ≡ has_crashed w)
    → (s.stop ≡ false → has_abandoned w' ≤ has_abandoned w)
    → Inv (record s { workers = set s.workers i w' })
idle_move-Inv s i w w' e v same calm =
    let f = sums s.workers i w w' e in
    let flight : total in_flight (set s.workers i w') ≡ total in_flight s.workers = omega arith in
    record {
      inputs = rw flight v.inputs;
      handed = omega arith;
      sound = omega arith;
      values = λ h. omega (arith, v.values h);
      asked = λ h. omega (arith, v.asked h, calm h);
      told = v.told;
    }

abbrev pub Moved : System → ℕ → System × Worker → Type 0
Moved s i r = Inv (record (r.0) { workers = set s.workers i r.1 })

enter-none :
    (s : System) (w : Worker)
    → (claim s.scheduler).exit ≡ returns
    → (claim s.scheduler).chunk ≡ none
    → (claim s.scheduler).scheduler ≡ s.scheduler
    → enter producer s w ≡ (s, record w { mode = consumer; phase = at_head })
unfolding enter
enter-none s w e c k = ground arith

enter-some :
    (s : System) (w : Worker) (count : ℕ)
    → (claim s.scheduler).exit ≡ returns
    → (claim s.scheduler).chunk ≡ some count
    → enter producer s w ≡ (
      record s { scheduler = (claim s.scheduler).scheduler },
      record w { phase = producing count 0 },
    )
unfolding enter
enter-some s w count e c = ground arith

pub enter_producer-Inv :
    (s : System) (i : ℕ) (w : Worker)
    → w.phase ≡ tested
    → get_elem? s.workers i ≡ some w
    → Inv s
    → Moved s i (enter producer s w)
enter_producer-Inv s i w p e v = elim (Option-cases (claim s.scheduler).chunk) [
  | inl none_left ↦ rw (enter-none s w c.no_throw none_left (c.kept none_left)) (
      idle_move-Inv s i w (record w { mode = consumer; phase = at_head }) e v (ground arith)
        (ground arith))
  | inr (count, some_left) ↦
      let w' : Worker = record w { phase = producing count 0 } in
      let f = sums s.workers i w w' e in
      let flight : total in_flight (set s.workers i w') ≡ total in_flight s.workers + count =
        ground arith in
      rw (enter-some s w count c.no_throw some_left) (record {
        inputs = rw flight (c.inputs count some_left);
        handed = ground (arith, c.some_input count some_left);
        sound = ground arith;
        values = λ h. ground (arith, v.values h, c.output, c.taken);
        asked = λ h. ground (arith, v.asked h);
        told = ground (arith, c.undone count some_left);
      })
]
  where
    c : Claimed s.scheduler (total in_flight s.workers) (claim s.scheduler)
    c = claim-Claimed s.scheduler (total in_flight s.workers) v.inputs

finish-returns :
    (s : System) (r : Report) (ended went_on : Worker)
    → r.exit ≡ returns
    → finish s r ended went_on ≡ (
      record s {
        scheduler = record (s.scheduler) { stats = r.stats };
        notified = if r.notified then true else s.notified;
      },
      went_on,
    )
unfolding finish
finish-returns s r ended went_on e = ground arith

-- A report that is made by a worker which then holds nothing.
pub finish-Inv :
    (s : System) (i : ℕ) (w w' : Worker) (r : Report) (rest made taken : ℕ)
    → get_elem? s.workers i ≡ some w
    → (made_by w ≡ made) × (taken_by w ≡ taken)
    → Inv s
    → rest + in_flight w ≡ total in_flight s.workers
    → (in_flight w' ≡ 0)
      × (made_by w' ≡ 0)
      × (taken_by w' ≡ 0)
      × (empty_handed w' ≡ 0)
      × (has_crashed w' ≡ 0)
      × (has_abandoned w' ≡ 0)
    → has_crashed w ≡ 0
    → Reported s.scheduler rest made taken r
    → Moved s i (finish s r w w')
finish-Inv s i w w' r rest made taken e m v h held sane d =
    let f = sums s.workers i w w' e in
    let flight : total in_flight (set s.workers i w') ≡ rest = omega arith in
    rw (finish-returns s r w w' d.no_throw) (record {
      inputs = rw flight d.inputs;
      handed = omega arith;
      sound = omega arith;
      values = λ o. omega (arith, v.values o, d.output, d.taken_in);
      asked = λ o. omega (arith, v.asked o);
      told = λ o. ground (arith, d.told);
    })

pub after_producer-phase : (r : Verdict) (w : Worker) → (after_producer r w).phase ≡ at_head
unfolding after_producer
after_producer-phase r w = ground arith
