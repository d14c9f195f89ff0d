-- ===== src/Exec/Scheduler/Stopping.antt =====
-- The workers once the pool is asked to stop: what they still claim, and that they end.
use yk_util.Base.{
  ℕ, ◌+◌, ◌-◌, ◌*◌, ◌≤◌, ◌≡◌, refl, sym, subst, ◌∙◌, Bool, true, List, [], ◌∷◌, Option, none, some,
  arith, inl, inr, Bool-cases, get_elem?, set, total, total-set, get_elem?-set, get_elem?-set_other,
  if◌then◌else◌, ◌==◌, ==_iff, length,
}
use yk_util.Exec.Scheduler.Workers.{Phase, Worker}
use yk_util.Exec.Scheduler.System.{
  System, Action, Event, worker, stops, closes, aborts, act, act_at, step, run,
}
use yk_util.Exec.Scheduler.Slowing.{
  steps_left, may_claim, consumed, chunk_of, due, act-Slows, due-less,
}

abbrev phase_steps : Option Worker → ℕ
phase_steps none = 0
phase_steps (some w) = steps_left w.phase

abbrev pub left_of : System → ℕ → ℕ
left_of s j = phase_steps (get_elem? s.workers j)

record Stopping (s t : System) : Type 0 where
  stays : t.stop ≡ true
  chunk : chunk_of t ≡ chunk_of s
  left : (j : ℕ) → left_of t j ≤ left_of s j
  claims :
      consumed t + total (may_claim (chunk_of s)) t.workers
      ≤ consumed s + total (may_claim (chunk_of s)) s.workers

same-Stopping :
    (s t : System)
    → t.stop ≡ true
    → t.scheduler ≡ s.scheduler
    → t.workers ≡ s.workers
    → Stopping s t
same-Stopping s t e c w = record {
  stays = e;
  chunk = ground (arith, c);
  left = λ j. ground (arith, w);
  claims = ground (arith, c, w);
}

trans-Stopping : (s t u : System) → Stopping s t → Stopping t u → Stopping s u
trans-Stopping s t u a b = record {
  stays = b.stays;
  chunk = b.chunk ∙ a.chunk;
  left = λ j. omega (arith, a.left j, b.left j);
  claims = omega (
    arith,
    a.claims,
    subst
        (λ c.
          consumed u + total (may_claim c) u.workers ≤ consumed t + total (may_claim c) t.workers)
        a.chunk b.claims,
  );
}

set-steps :
    (ws : List Worker) (i j : ℕ) (w w' : Worker)
    → get_elem? ws i ≡ some w
    → steps_left w'.phase ≤ steps_left w.phase
    → phase_steps (get_elem? (set ws i w') j) ≤ phase_steps (get_elem? ws j)
set-steps ws i j w w' e l = elim (Bool-cases (i == j)) [
  | inl same ↦
      subst (λ k. phase_steps (get_elem? (set ws i w') k) ≤ phase_steps (get_elem? ws k))
        ((==_iff i j).0 same) (ground (arith, e, get_elem?-set ws i w w' e, l))
  | inr other ↦ ground (arith, get_elem?-set_other ws i j w' (λ k. ground (arith, k, other)))
]

act_at-Stopping :
    (s : System) (i : ℕ) (a : Action) (o : Option Worker)
    → get_elem? s.workers i ≡ o
    → s.stop ≡ true
    → Stopping s (act_at s i a o)
unfolding act_at
act_at-Stopping s i a none e h = same-Stopping s s h refl refl
act_at-Stopping s i a (some w) e h =
    let r = act a w.phase s w in
    let m = act-Slows a w.phase s w refl h in
    record {
      stays = m.stays;
      chunk = m.chunk;
      left = λ j. set-steps s.workers i j w r.1 e m.left;
      claims = omega (arith, total-set (may_claim (chunk_of s)) s.workers i w r.1 e, m.claims);
    }

step-Stopping : (s : System) (e : Event) → s.stop ≡ true → Stopping s (step s e)
unfolding step
step-Stopping s (worker i a) h = act_at-Stopping s i a (get_elem? s.workers i) refl h
step-Stopping s stops h = same-Stopping s (step s stops) refl refl refl
step-Stopping s closes h = same-Stopping s (step s closes) h refl refl
step-Stopping s aborts h = same-Stopping s (step s aborts) refl refl refl

run-Stopping : (s : System) (es : List Event) → s.stop ≡ true → Stopping s (run s es)
unfolding run
run-Stopping s [] h = same-Stopping s s h refl refl
run-Stopping s (e ∷ es) h =
    let first = step-Stopping s e h in
    trans-Stopping s (step s e) (run (step s e) es) first (run-Stopping (step s e) es first.stays)

all_claim : (chunk : ℕ) (ws : List Worker) → total (may_claim chunk) ws ≤ length ws * chunk
all_claim chunk [] = omega arith
all_claim chunk (w ∷ ws) = ground (arith, all_claim chunk ws)

-- Once the pool is asked to stop, whatever events follow, the inputs that are claimed afterwards
-- are at most one chunk for each worker.
pub stop_bounds_claims :
    (s : System) (es : List Event)
    → s.stop ≡ true
    → consumed (run s es) ≤ consumed s + length s.workers * s.scheduler.producer_chunk_size
stop_bounds_claims s es h =
    omega (arith, (run-Stopping s es h).claims, all_claim (chunk_of s) s.workers)

-- What happens, where a turn of a worker is what it does next when its callback returns.
pub data Move : Type 0 where
  turn : ℕ → Move
  event : Event → Move

abbrev pub due_of : Option Worker → Action
due_of none = Action.checks
due_of (some w) = due w.phase

abbrev pub event_of : System → Move → Event
event_of s (event e) = e
event_of s (turn i) = worker i (due_of (get_elem? s.workers i))

unfoldable pub play : System → List Move → System
unfolding step
play s [] = s
play s (m ∷ ms) = play (step s (event_of s m)) ms

abbrev pub turns_of : ℕ → List Move → ℕ
turns_of i [] = 0
turns_of i (turn j ∷ ms) = (if j == i then 1 else 0) + turns_of i ms
turns_of i (event e ∷ ms) = turns_of i ms

due_of-left :
    (s : System) (i : ℕ) (o : Option Worker)
    → get_elem? s.workers i ≡ o
    → s.stop ≡ true
    → left_of (act_at s i (due_of o) o) i ≤ phase_steps o - 1
unfolding act_at
due_of-left s i none e h = ground (arith, e)
due_of-left s i (some w) e h =
    let w' = (act (due w.phase) w.phase s w).1 in
    ground (arith, get_elem?-set s.workers i w w' e, due-less w.phase s w refl h)

turn-left :
    (s : System) (i : ℕ)
    → s.stop ≡ true
    → left_of (step s (event_of s (turn i))) i ≤ left_of s i - 1
unfolding step
turn-left s i h = due_of-left s i (get_elem? s.workers i) refl h

play-left :
    (s : System) (ms : List Move) (i : ℕ)
    → s.stop ≡ true
    → left_of (play s ms) i ≤ left_of s i - turns_of i ms
unfolding play
play-left s [] i h = omega arith
play-left s (turn j ∷ ms) i h =
    let t = step s (event_of s (turn j)) in
    let first = step-Stopping s (event_of s (turn j)) h in
    elim (Bool-cases (j == i)) [
      | inl same ↦
          let e : j ≡ i = (==_iff j i).0 same in
          let less : left_of t i ≤ left_of s i - 1 =
            subst (λ k. left_of (step s (event_of s (turn k))) i ≤ left_of s i - 1) (sym e)
              (turn-left s i h) in
          ground (arith, same, less, play-left t ms i first.stays)
      | inr other ↦ ground (arith, other, first.left i, play-left t ms i first.stays)
    ]
play-left s (event e ∷ ms) i h =
    let first = step-Stopping s e h in
    omega (arith, first.left i, play-left (step s e) ms i first.stays)

-- A worker that returned, or that an exception ended.
abbrev pub has_ended : Phase → Bool
has_ended p = steps_left p == 0

-- Once the pool is asked to stop, every worker that gets three turns, in which it does what
-- comes next when its callback returns, has ended, whatever happens between them.
pub stopped_workers_end :
    (s : System) (ms : List Move) (i : ℕ) (w : Worker)
    → s.stop ≡ true
    → 3 ≤ turns_of i ms
    → get_elem? (play s ms).workers i ≡ some w
    → has_ended w.phase ≡ true
stopped_workers_end s ms i w h t e =
    ground (arith, play-left s ms i h, e, t, at_most_three (get_elem? s.workers i))
  where
    at_most_three : (o : Option Worker) → phase_steps o ≤ 3
    at_most_three o = ground arith
