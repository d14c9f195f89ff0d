-- ===== src/Exec/Scheduler/Unchanged.antt =====
-- What no worker changes: the input range, and `is_running`.
use yk_util.Base.{ℕ, ◌≡◌, refl, List, [], ◌∷◌, Option, none, some, arith, get_elem?, ◌∙◌}
use yk_util.Exec.Scheduler.{Scheduler, claim, report_producer, report_consumer}
use yk_util.Exec.Scheduler.Workers.{
  Worker, Mode, Phase, producer, consumer, at_head, tested, producing, consuming, after_producer,
  after_consumer,
}
use yk_util.Exec.Scheduler.System.{
  System, Action, checks, enters, accesses, reports, raises, Event, worker, stops, closes, aborts,
  act, enter, finish, act_at, step, run,
}

abbrev Same : System → System → Type 0
Same s t =
    (t.scheduler.inputs ≡ s.scheduler.inputs)
    × (t.scheduler.stats.is_running ≡ s.scheduler.stats.is_running)

claim-Same :
    (c : Scheduler)
    → ((claim c).scheduler.inputs ≡ c.inputs)
      × ((claim c).scheduler.stats.is_running ≡ c.stats.is_running)
unfolding claim
claim-Same c = ground arith

enter-Same : (m : Mode) (s : System) (w : Worker) → Same s (enter m s w).0
unfolding enter
enter-Same producer s w = ground (arith, claim-Same s.scheduler)
enter-Same consumer s w = (refl, refl)

report_producer-Same :
    (count made : ℕ) (s : System) (a b : Worker)
    → Same s (finish s (report_producer count made s.scheduler.stats) a b).0
unfolding finish report_producer
report_producer-Same count made s a b = ground arith

report_consumer-Same :
    (taken : ℕ) (s : System) (a b : Worker)
    → Same s (finish s (report_consumer taken s.scheduler.stats) a b).0
unfolding finish report_consumer
report_consumer-Same taken s a b = ground arith

act-Same : (a : Action) (p : Phase) (s : System) (w : Worker) → Same s (act a p s w).0
unfolding act
act-Same checks at_head s w = (refl, refl)
act-Same enters tested s w = enter-Same w.mode s w
act-Same raises (producing count made) s w = (refl, refl)
act-Same raises (consuming taken) s w = (refl, refl)
act-Same accesses (producing count made) s w = ground arith
act-Same reports (producing count made) s w =
    report_producer-Same count made s w
      (after_producer (report_producer count made s.scheduler.stats).verdict w)
act-Same accesses (consuming taken) s w = ground arith
act-Same reports (consuming taken) s w =
    report_consumer-Same taken s w
      (after_consumer (report_consumer taken s.scheduler.stats).verdict w)
act-Same _ _ s w = (refl, refl)

act_at-Same : (s : System) (i : ℕ) (a : Action) (o : Option Worker) → Same s (act_at s i a o)
unfolding act_at
act_at-Same s i a none = (refl, refl)
act_at-Same s i a (some w) = act-Same a w.phase s w

step-Same : (s : System) (e : Event) → Same s (step s e)
unfolding step
step-Same s (worker i a) = act_at-Same s i a (get_elem? s.workers i)
step-Same s stops = (refl, refl)
step-Same s closes = (refl, refl)
step-Same s aborts = (refl, refl)

run-Same : (s : System) (es : List Event) → Same s (run s es)
unfolding run
run-Same s [] = (refl, refl)
run-Same s (e ∷ es) =
    let (a, b) = run-Same (step s e) es in let (c, d) = step-Same s e in (a ∙ c, b ∙ d)

pub run-inputs : (s : System) (es : List Event) → (run s es).scheduler.inputs ≡ s.scheduler.inputs
run-inputs s es = (run-Same s es).0

pub run-is_running :
    (s : System) (es : List Event)
    → (run s es).scheduler.stats.is_running ≡ s.scheduler.stats.is_running
run-is_running s es = (run-Same s es).1
