-- ===== src/Exec/Tracker/Deltas.antt =====
-- The sums of what is reported, over executions of a scheduler with one tracker.
use yk_util.Base.{
  ℕ, ◌+◌, ◌≡◌, ◌∙◌, sym, ap, refl, if-elim, Option-cases, Bool, true, false, not, ◌&&◌, ◌||◌, subst,
  inl, inr, List, [], ◌∷◌, ◌++◌, Option, none, some, total, arith,
}
use yk_util.Base.Int.{ℤ, pos_part, neg_part, sub_ℕ}
use yk_util.Exec.Stats.{SchedulerStats, initial, count_updated, same_count}
use yk_util.Exec.Tracker.{
  DeltaStats, delta_stats, Tracker, create, tick_at, Round, Thread, round, rounds,
  launch_stats_tracker, wait_for_all_tasks, reset_first_tick, interval_elapsed, keep, leave,
}

-- One execution: when the tracker is launched, its rounds, and the last tick with its counters.
pub record Execution : Type 0 where
  pub started : ℕ
  pub rounds_of : List Round
  pub ended : ℕ
  pub final : SchedulerStats

-- The callback throws in no round.
abbrev quiet_round : Round → Bool
quiet_round r = elim r.thrown [ none ↦ true | some _ ↦ false ]

abbrev quiet_rounds : List Round → Bool
quiet_rounds [] = true
quiet_rounds (r ∷ rs) = quiet_round r && quiet_rounds rs

abbrev pub quiet : List Execution → Bool
quiet [] = true
quiet (e ∷ es) = quiet_rounds e.rounds_of && quiet es

-- `start` and `wait_for_all_tasks`, for the tracker
unfoldable pub execute : Execution → Tracker → Thread × Option ℕ
unfolding launch_stats_tracker rounds wait_for_all_tasks
execute e t =
    wait_for_all_tasks e.ended e.final none
      (rounds e.rounds_of (launch_stats_tracker e.started t none))

-- The tracker after some executions, unless one of them throws.
abbrev pub executions : List Execution → Tracker → Option Tracker
executions [] t = some t
executions (e ∷ es) t = elim (execute e t).1 [
  | none ↦ executions es (execute e t).0.tracker
  | some x ↦ none
]

abbrev pub last_final : SchedulerStats → List Execution → SchedulerStats
last_final s [] = s
last_final s (e ∷ es) = last_final e.final es

-- `n` is the sum of some integers.
abbrev pub Sums : (DeltaStats → ℤ) → List DeltaStats → ℕ → Type 0
Sums f ds n = total (λ d. pos_part (f d)) ds ≡ total (λ d. neg_part (f d)) ds + n

total-snoc :
    {A : Type 0} (w : A → ℕ) (xs : List A) (x : A) → total w (xs ++ (x ∷ [])) ≡ total w xs + w x
total-snoc w [] x = omega arith
total-snoc w (y ∷ xs) x = omega (arith, total-snoc w xs x)

-- A tracker with a callback whose reports add up to the counters it saw last.
record Balanced (t : Tracker) : Type 0 where
  has_callback : t.callback ≡ true
  outputs : Sums (λ d. d.producer_output_delta) t.reports t.prev_stats.producer_output
  processed : Sums (λ d. d.consumer_process_delta) t.reports t.prev_stats.consumer_input_processed

same_outputs :
    (s o : SchedulerStats)
    → count_updated s o ≡ false
    → (s.producer_output ≡ o.producer_output)
      × (s.consumer_input_processed ≡ o.consumer_input_processed)
unfolding count_updated same_count
same_outputs s o e = ground (arith, e)

difference : (a b : ℕ) → pos_part (sub_ℕ a b) + b ≡ neg_part (sub_ℕ a b) + a
difference a b = ground arith

reported :
    (f : DeltaStats → ℤ) (ds : List DeltaStats) (d : DeltaStats) (m n : ℕ)
    → f d ≡ sub_ℕ n m
    → Sums f ds m
    → Sums f (ds ++ (d ∷ [])) n
reported f ds d m n e h = omega (
  arith,
  h,
  total-snoc (λ x. pos_part (f x)) ds d,
  total-snoc (λ x. neg_part (f x)) ds d,
  ap pos_part e,
  ap neg_part e,
  difference n m,
)

tick_at-Balanced :
    (now : ℕ) (s : SchedulerStats) (t : Tracker)
    → Balanced t
    → Balanced (tick_at now s none t).0
      × ((tick_at now s none t).1 ≡ none)
      × ((tick_at now s none t).0.prev_stats ≡ s)
unfolding tick_at delta_stats
tick_at-Balanced now s t b =
    if-elim (λ (r : Tracker × Option ℕ). Balanced r.0 × (r.1 ≡ none) × (r.0.prev_stats ≡ s))
      (t.callback && count_updated s t.prev_stats) _ _
      (λ e. (
        record {
          has_callback = b.has_callback;
          outputs = reported (λ d. d.producer_output_delta) t.reports _ _ _ refl b.outputs;
          processed = reported (λ d. d.consumer_process_delta) t.reports _ _ _ refl b.processed;
        },
        refl,
        refl,
      ))
      (λ e.
        let (outputs, processed) =
          same_outputs s t.prev_stats (ground (arith, e, b.has_callback)) in
        (
          record {
            has_callback = b.has_callback;
            outputs =
                b.outputs
                ∙ ap (λ n. total (λ d. neg_part d.producer_output_delta) t.reports + n)
                    (sym outputs);
            processed =
                b.processed
                ∙ ap (λ n. total (λ d. neg_part d.consumer_process_delta) t.reports + n)
                    (sym processed);
          },
          refl,
          refl,
        ))

Sound : Thread → Type 0
Sound th = Balanced th.tracker × (th.exception ≡ none)

keep-Sound :
    (p : Tracker × Option ℕ) (th : Thread)
    → Balanced p.0
    → p.1 ≡ none
    → th.exception ≡ none
    → Sound (keep p th)
unfolding Sound
keep-Sound (t, none) th b e h = (b, h)
keep-Sound (t, some x) th b e h = cc

round-Sound : (r : Round) (th : Thread) → quiet_round r ≡ true → Sound th → Sound (round r th)
unfolding round Sound
round-Sound r th q h =
    if-elim Sound (th.ended || r.pool_stops || r.stops || not (interval_elapsed r.woken th.tracker))
      _ _ (λ e. h)
      (λ e. elim (Option-cases r.thrown) [
        | inl n ↦
            subst (λ o. Sound (keep (tick_at r.now r.stats o th.tracker) th)) (sym n)
              (let (b, none_thrown, _) = tick_at-Balanced r.now r.stats th.tracker h.0 in
                keep-Sound (tick_at r.now r.stats none th.tracker) th b none_thrown h.1)
        | inr (x, n) ↦ absurd (ground (arith, q, n))
      ])

rounds-Sound :
    (rs : List Round) (th : Thread) → quiet_rounds rs ≡ true → Sound th → Sound (rounds rs th)
unfolding rounds
rounds-Sound [] th q h = h
rounds-Sound (r ∷ rs) th q h =
    rounds-Sound rs (round r th) (ground (arith, q)) (round-Sound r th (ground (arith, q)) h)

launched : (now : ℕ) (t : Tracker) → Balanced t → Sound (launch_stats_tracker now t none)
unfolding launch_stats_tracker reset_first_tick Sound
launched now t b =
    (record { has_callback = b.has_callback; outputs = b.outputs; processed = b.processed }, refl)

waited :
    (now : ℕ) (s : SchedulerStats) (th : Thread)
    → Balanced th.tracker
    → th.exception ≡ none
    → Balanced (wait_for_all_tasks now s none th).0.tracker
      × ((wait_for_all_tasks now s none th).1 ≡ none)
      × ((wait_for_all_tasks now s none th).0.tracker.prev_stats ≡ s)
unfolding wait_for_all_tasks
waited now s th b e =
    subst
      (λ o.
        let r = leave o (tick_at now s none th.tracker) th in
        Balanced r.0.tracker × (r.1 ≡ none) × (r.0.tracker.prev_stats ≡ s))
      (sym e) (tick_at-Balanced now s th.tracker b)

execute-Balanced :
    (e : Execution) (t : Tracker)
    → quiet_rounds e.rounds_of ≡ true
    → Balanced t
    → Balanced (execute e t).0.tracker
      × ((execute e t).1 ≡ none)
      × ((execute e t).0.tracker.prev_stats ≡ e.final)
unfolding execute Sound
execute-Balanced e t q b =
    let started = launch_stats_tracker e.started t none in
    let (b, quiet) = rounds-Sound e.rounds_of started q (launched e.started t b) in
    waited e.ended e.final (rounds e.rounds_of started) b quiet

executions-Balanced :
    (es : List Execution) (t : Tracker)
    → quiet es ≡ true
    → Balanced t
    → (u : Tracker) × (executions es t ≡ some u)
      × Balanced u
      × (u.prev_stats ≡ last_final t.prev_stats es)
executions-Balanced [] t q b = (t, refl, b, refl)
executions-Balanced (e ∷ es) t q b =
    let (b', quiet_end, seen) = execute-Balanced e t (ground (arith, q)) b in
    let (u, ran, bu, last) =
      executions-Balanced es (execute e t).0.tracker (ground (arith, q)) b' in
    let next : Option ℕ → Option Tracker = λ o. elim o as (λ _. Option Tracker) [
      | none ↦ executions es (execute e t).0.tracker
      | some x ↦ none
    ] in
    (u, ap next quiet_end ∙ ran, bu, last ∙ ap (λ s. last_final s es) seen)

-- Over any number of executions with one tracker whose callback does not throw, the calls go
-- through and the reported differences of outputs and of processed values add up to the counters
-- at the end of the last execution, also where single ticks reported nothing.
pub deltas_add_up :
    (interval : ℕ) (es : List Execution)
    → quiet es ≡ true
    → (t : Tracker) × (executions es (create interval) ≡ some t)
      × Sums (λ d. d.producer_output_delta) t.reports (last_final (initial none) es).producer_output
      × Sums
          (λ d. d.consumer_process_delta)
          t.reports
          (last_final (initial none) es).consumer_input_processed
unfolding create
deltas_add_up interval es q =
    let (t, ran, b, last) =
      executions-Balanced es (create interval) q
        (record { has_callback = refl; outputs = refl; processed = refl }) in
    (
      t,
      ran,
      b.outputs
          ∙ ap (λ s. total (λ d. neg_part d.producer_output_delta) t.reports + s.producer_output)
              last,
      b.processed
          ∙ ap
              (λ s.
                total (λ d. neg_part d.consumer_process_delta) t.reports
                + s.consumer_input_processed)
              last,
    )
