-- ===== src/Exec/Scheduler/Invariant/Moves.antt =====
-- The invariant under one move of one worker.
use yk_util.Base.{
  ℕ, ◌+◌, ◌-◌, ◌≡◌, refl, subst, true, false, some, arith, ◌⊎◌, inl, inr, Bool-cases, get_elem?,
  set, total, ltb, if◌then◌else◌,
}
use yk_util.Exec.Scheduler.{report_producer, report_consumer, Verdict}
use yk_util.Exec.Scheduler.Workers.{
  Mode, producer, consumer, Phase, at_head, tested, producing, consuming, finished,
  abandoned_producing, abandoned_consuming, Worker, after_producer, after_consumer,
}
use yk_util.Exec.Scheduler.System.{
  System, Action, checks, enters, accesses, reports, raises, act, enter,
}
use yk_util.Exec.Scheduler.Invariant.Defs.{
  in_flight, made_by, taken_by, empty_handed, has_crashed, has_abandoned, Inv, sums,
}
use yk_util.Exec.Scheduler.Invariant.Counters.{
  Inputs, report_producer-Reported, report_consumer-Reported,
}
use yk_util.Exec.Scheduler.Invariant.Steps.{
  Moved, idle_move-Inv, enter_producer-Inv, finish-Inv, after_producer-phase,
}

after_consumer-phase :
    (r : Verdict) (w : Worker)
    → ((after_consumer r w).phase ≡ at_head) ⊎ ((after_consumer r w).phase ≡ finished)
unfolding after_consumer
after_consumer-phase r w = ground arith

-- An access to the queue, which keeps the sum of what is queued and what the workers hold.
access-Inv :
    (s : System) (i : ℕ) (w w' : Worker) (q : ℕ)
    → get_elem? s.workers i ≡ some w
    → Inv s
    → (in_flight w' ≡ in_flight w)
      × (empty_handed w' ≡ empty_handed w)
      × (has_crashed w' ≡ has_crashed w)
      × (has_abandoned w' ≡ has_abandoned w)
    → (s.closed ≡ false → made_by w' + s.queued + taken_by w ≡ made_by w + q + taken_by w')
    → Inv (record s { queued = q; workers = set s.workers i w' })
access-Inv s i w w' q e v same balance =
    let f = sums s.workers i w w' e in
    let flight : total in_flight (set s.workers i w') ≡ total in_flight s.workers = omega arith in
    record {
      inputs = rw flight v.inputs;
      handed = omega arith;
      sound = omega arith;
      values = λ h. omega (arith, v.values h, balance h);
      asked = λ h. omega (arith, v.asked h);
      told = v.told;
    }

enter-Inv :
    (m : Mode) (s : System) (i : ℕ) (w : Worker)
    → w.phase ≡ tested
    → get_elem? s.workers i ≡ some w
    → Inv s
    → Moved s i (enter m s w)
unfolding enter
enter-Inv producer s i w p e v = enter_producer-Inv s i w p e v
enter-Inv consumer s i w p e v =
    idle_move-Inv s i w (record w { phase = consuming 0 }) e v (ground arith) (ground arith)

by_result : (s : System) (i : ℕ) (r r' : System × Worker) → r ≡ r' → Moved s i r' → Moved s i r
by_result s i r r' e v = rw e v

pop-Inv :
    (taken : ℕ) (s : System) (i : ℕ) (w : Worker)
    → w.phase ≡ consuming taken
    → get_elem? s.workers i ≡ some w
    → Inv s
    → Moved s i (act accesses (consuming taken) s w)
unfolding act
pop-Inv taken s i w p e v =
    let w' : Worker = record w { phase = consuming (taken + 1) } in
    elim (Bool-cases s.closed) [
      | inl closed ↦
          by_result s i (act accesses (consuming taken) s w) (s, w') (ground arith)
            (access-Inv s i w w' s.queued e v (ground arith) (ground arith))
      | inr ready ↦ elim (Bool-cases (ltb 0 s.queued)) [
        | inl some_left ↦
            by_result s i (act accesses (consuming taken) s w)
              (record s { queued = s.queued - 1 }, w') (ground arith)
              (access-Inv s i w w' (s.queued - 1) e v (ground arith) (ground arith))
        | inr none_left ↦
            by_result s i (act accesses (consuming taken) s w) (s, w) (ground arith)
              (idle_move-Inv s i w w e v (refl, refl, refl, refl, refl) (λ h. omega arith))
      ]
    ]

-- A worker whose callback throws, keeps what it holds, and requests a stop.
raise-Inv :
    (s : System) (i : ℕ) (w w' : Worker)
    → get_elem? s.workers i ≡ some w
    → Inv s
    → (in_flight w' ≡ in_flight w)
      × (made_by w' ≡ made_by w)
      × (taken_by w' ≡ taken_by w)
      × (empty_handed w' ≡ empty_handed w)
      × (has_crashed w' ≡ has_crashed w)
    → Moved s i (record s { stop = true }, w')
raise-Inv s i w w' e v same =
    idle_move-Inv (record s { stop = true }) i w w' e
      (record {
        inputs = v.inputs;
        handed = v.handed;
        sound = v.sound;
        values = v.values;
        asked = λ h. cc;
        told = v.told;
      })
      same (λ h. cc)

pub act-Inv :
    (a : Action) (p : Phase) (s : System) (i : ℕ) (w : Worker)
    → w.phase ≡ p
    → get_elem? s.workers i ≡ some w
    → Inv s
    → Moved s i (act a p s w)
unfolding act
act-Inv checks at_head s i w p e v =
    idle_move-Inv s i w
      (if s.stop then record w { phase = finished } else record w { phase = tested }) e v
      (ground arith) (ground arith)
act-Inv enters tested s i w p e v = enter-Inv w.mode s i w p e v
act-Inv raises (producing count made) s i w p e v =
    raise-Inv s i w (record w { phase = abandoned_producing count made }) e v (ground arith)
act-Inv raises (consuming taken) s i w p e v =
    raise-Inv s i w (record w { phase = abandoned_consuming taken }) e v (ground arith)
act-Inv accesses (producing count made) s i w p e v =
    let w' : Worker = record w { phase = producing count (made + 1) } in
    elim (Bool-cases s.closed) [
      | inl closed ↦
          by_result s i (act accesses (producing count made) s w) (s, w') (ground arith)
            (access-Inv s i w w' s.queued e v (ground arith) (ground arith))
      | inr ready ↦
          by_result s i (act accesses (producing count made) s w)
            (record s { queued = s.queued + 1 }, w') (ground arith)
            (access-Inv s i w w' (s.queued + 1) e v (ground arith) (ground arith))
    ]
act-Inv reports (producing count made) s i w p e v =
    let f = sums s.workers i w w e in
    let r = report_producer count made s.scheduler.stats in
    let all : total in_flight s.workers ≡ total in_flight s.workers - count + count =
      ground arith in
    finish-Inv s i w (after_producer r.verdict w) r (total in_flight s.workers - count) made 0 e
      (ground arith) v (ground arith) (ground (arith, after_producer-phase r.verdict w))
      (ground arith)
      (report_producer-Reported s.scheduler (total in_flight s.workers - count) count made
        (ground arith) (subst (Inputs s.scheduler) all v.inputs))
act-Inv accesses (consuming taken) s i w p e v = pop-Inv taken s i w p e v
act-Inv reports (consuming taken) s i w p e v =
    let r = report_consumer taken s.scheduler.stats in
    finish-Inv s i w (after_consumer r.verdict w) r (total in_flight s.workers) 0 taken e
      (ground arith) v (ground arith) (ground (arith, after_consumer-phase r.verdict w))
      (ground arith)
      (report_consumer-Reported s.scheduler (total in_flight s.workers) taken v.inputs)
act-Inv _ _ s i w p e v =
    idle_move-Inv s i w w e v (refl, refl, refl, refl, refl) (λ h. omega arith)
