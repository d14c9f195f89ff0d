-- ===== src/Exec/Scheduler/Slowing.antt =====
-- One move of a worker once the pool is asked to stop.
use yk_util.Base.{ℕ, ◌+◌, ◌-◌, ◌≤◌, ◌≡◌, refl, true, arith}
use yk_util.Exec.Scheduler.{Scheduler, claim, Report, report_producer, report_consumer, Verdict}
use yk_util.Exec.Scheduler.Workers.{
  Mode, producer, consumer, Phase, at_head, tested, producing, consuming, finished,
  abandoned_producing, abandoned_consuming, crashed, Worker, after_producer, after_consumer,
}
use yk_util.Exec.Scheduler.System.{
  System, Action, checks, enters, accesses, reports, raises, act, enter, finish,
}

-- How many steps a worker has left before it ends, its accesses to the queue aside.
abbrev pub steps_left : Phase → ℕ
steps_left tested = 3
steps_left (producing count made) = 2
steps_left (consuming taken) = 2
steps_left at_head = 1
steps_left _ = 0

-- What a worker may still claim: only one behind the test of a producing loop does.
abbrev pub may_claim : ℕ → Worker → ℕ
may_claim chunk w = elim w.phase [
  | tested ↦ elim w.mode [ producer ↦ chunk | consumer ↦ 0 ]
  | _ ↦ 0
]

abbrev pub consumed : System → ℕ
consumed s = s.scheduler.stats.producer_input_consumed

abbrev pub chunk_of : System → ℕ
chunk_of s = s.scheduler.producer_chunk_size

pub record Slows (s : System) (w : Worker) (r : System × Worker) : Type 0 where
  pub stays : r.0.stop ≡ true
  pub workers : r.0.workers ≡ s.workers
  pub chunk : chunk_of r.0 ≡ chunk_of s
  pub left : steps_left r.1.phase ≤ steps_left w.phase
  pub claims : consumed r.0 + may_claim (chunk_of s) r.1 ≤ consumed s + may_claim (chunk_of s) w

claim-at_most :
    (c : Scheduler)
    → ((claim c).scheduler.stats.producer_input_consumed
        ≤ c.stats.producer_input_consumed + c.producer_chunk_size)
      × ((claim c).scheduler.producer_chunk_size ≡ c.producer_chunk_size)
unfolding claim
claim-at_most c = ground arith

enter-Slows :
    (m : Mode) (s : System) (w : Worker)
    → w.mode ≡ m
    → w.phase ≡ tested
    → s.stop ≡ true
    → Slows s w (enter m s w) × (steps_left (enter m s w).1.phase ≤ 2)
unfolding enter
enter-Slows producer s w d p e = (
  record {
    stays = ground arith;
    workers = ground arith;
    chunk = ground (arith, claim-at_most s.scheduler);
    left = ground (arith, p);
    claims = ground (arith, p, d, claim-at_most s.scheduler);
  },
  ground arith,
)
enter-Slows consumer s w d p e = (
  record {
    stays = e;
    workers = refl;
    chunk = refl;
    left = ground (arith, p);
    claims = ground (arith, p, d);
  },
  omega arith,
)

-- What a worker does next when its callback returns.
abbrev pub due : Phase → Action
due at_head = checks
due tested = enters
due _ = reports

report-Slows :
    (s : System) (w : Worker) (r : Report) (ended went_on : Worker)
    → s.stop ≡ true
    → r.stats.producer_input_consumed ≡ consumed s
    → steps_left went_on.phase ≤ 1
    → steps_left w.phase ≡ 2
    → Slows s w (finish s r ended went_on) × (steps_left (finish s r ended went_on).1.phase ≤ 1)
unfolding finish
report-Slows s w r ended went_on e same m t = (
  record {
    stays = ground arith;
    workers = ground arith;
    chunk = ground arith;
    left = ground arith;
    claims = ground arith;
  },
  ground arith,
)

report_producer-consumed :
    (count made : ℕ) (s : System)
    → (report_producer count made s.scheduler.stats).stats.producer_input_consumed ≡ consumed s
unfolding report_producer
report_producer-consumed count made s = ground arith

report_consumer-consumed :
    (taken : ℕ) (s : System)
    → (report_consumer taken s.scheduler.stats).stats.producer_input_consumed ≡ consumed s
unfolding report_consumer
report_consumer-consumed taken s = ground arith

after-steps :
    (r : Verdict) (w : Worker)
    → (steps_left (after_producer r w).phase ≤ 1) × (steps_left (after_consumer r w).phase ≤ 1)
unfolding after_producer after_consumer
after-steps r w = ground arith

pub act-Slows :
    (a : Action) (p : Phase) (s : System) (w : Worker)
    → w.phase ≡ p
    → s.stop ≡ true
    → Slows s w (act a p s w)
unfolding act
act-Slows checks at_head s w p e = record {
  stays = ground arith;
  workers = ground arith;
  chunk = ground arith;
  left = ground arith;
  claims = ground arith;
}
act-Slows enters tested s w p e = (enter-Slows w.mode s w refl p e).0
act-Slows accesses (producing count made) s w p e = record {
  stays = ground arith;
  workers = ground arith;
  chunk = ground arith;
  left = ground arith;
  claims = ground arith;
}
act-Slows accesses (consuming taken) s w p e = record {
  stays = ground arith;
  workers = ground arith;
  chunk = ground arith;
  left = ground arith;
  claims = ground arith;
}
act-Slows reports (producing count made) s w p e =
    let r = report_producer count made s.scheduler.stats in
    (report-Slows s w r w (after_producer r.verdict w) e (report_producer-consumed count made s)
      (after-steps r.verdict w).0 (ground (arith, p))).0
act-Slows reports (consuming taken) s w p e =
    let r = report_consumer taken s.scheduler.stats in
    (report-Slows s w r w (after_consumer r.verdict w) e (report_consumer-consumed taken s)
      (after-steps r.verdict w).1 (ground (arith, p))).0
act-Slows raises (producing count made) s w p e = record {
  stays = ground arith;
  workers = ground arith;
  chunk = ground arith;
  left = ground arith;
  claims = ground arith;
}
act-Slows raises (consuming taken) s w p e = record {
  stays = ground arith;
  workers = ground arith;
  chunk = ground arith;
  left = ground arith;
  claims = ground arith;
}
act-Slows _ _ s w p e = record {
  stays = e;
  workers = refl;
  chunk = refl;
  left = omega arith;
  claims = omega arith;
}

pub due-less :
    (p : Phase) (s : System) (w : Worker)
    → w.phase ≡ p
    → s.stop ≡ true
    → steps_left (act (due p) p s w).1.phase ≤ steps_left p - 1
unfolding act
due-less at_head s w p e = ground arith
due-less tested s w p e = (enter-Slows w.mode s w refl p e).1
due-less (producing count made) s w p e =
    let r = report_producer count made s.scheduler.stats in
    (report-Slows s w r w (after_producer r.verdict w) e (report_producer-consumed count made s)
      (after-steps r.verdict w).0 (ground (arith, p))).1
due-less (consuming taken) s w p e =
    let r = report_consumer taken s.scheduler.stats in
    (report-Slows s w r w (after_consumer r.verdict w) e (report_consumer-consumed taken s)
      (after-steps r.verdict w).1 (ground (arith, p))).1
due-less finished s w p e = ground (arith, p)
due-less (abandoned_producing count made) s w p e = ground (arith, p)
due-less (abandoned_consuming taken) s w p e = ground (arith, p)
due-less crashed s w p e = ground (arith, p)
