-- ===== src/ParForEach/Ends.antt =====
-- The jobs end, and what their elements have come to.
use yk_util.Base.{
  ℕ, ◌+◌, ◌-◌, ◌≤◌, ◌<◌, ◌≡◌, refl, ap, sym, ◌∙◌, subst, List, [], ◌∷◌, Option, none, some,
  if◌then◌else◌, ltb, ◌==◌, arith, if-elim, ==_iff,
}
use yk_util.ParForEach.{
  JobPolicy, abort_policy, proceed_policy, Job, waiting, invoking, finished, handling, State,
  update, begin, test, after, advance, step, run,
}
use yk_util.ParForEach.Jobs.{Ended, Thrown, Fits, run-Inv, begin-Inv}

-- How often a schedule has the job of an element.
abbrev pub turns : ℕ → List ℕ → ℕ
turns i [] = 0
turns i (x ∷ is) = (if x == i then 1 else 0) + turns i is

module _ {E : Type 0} (policy : JobPolicy) (func : ℕ → Option E) where
  -- How many steps a job has before it at most.
  abbrev steps_left : Job E → ℕ
  steps_left waiting = 3
  steps_left invoking = 2
  steps_left (handling e) = 1
  steps_left finished = 0

  put-steps_left :
      (jobs : ℕ → Job E) (i : ℕ) (j : Job E)
      → steps_left j ≤ steps_left (jobs i) - 1
      → (x : ℕ) → steps_left (update jobs i j x) ≤ steps_left (jobs x) - (if i == x then 1 else 0)
  put-steps_left jobs i j h x =
      if-elim (λ j. steps_left j ≤ steps_left (jobs x) - (if i == x then 1 else 0)) (x == i) j
        (jobs x)
        (λ e.
          let q : x ≡ i = (==_iff x i).0 e in
          subst (λ x. steps_left j ≤ steps_left (jobs x) - (if i == x then 1 else 0)) (sym q)
            (ground (arith, h)))
        (λ e. ground (arith, e))

  test-steps_left : (p : JobPolicy) (o : Option E) → steps_left (test p o) ≤ 2
  unfolding test
  test-steps_left abort_policy o = ground arith
  test-steps_left proceed_policy o = omega arith

  after-steps_left : (o : Option E) → steps_left (after o) ≤ 1
  unfolding after
  after-steps_left none = omega arith
  after-steps_left (some e) = omega arith

  advance-steps_left :
      (i : ℕ) (j : Job E) (s : State E)
      → s.jobs i ≡ j
      → (x : ℕ)
      → steps_left ((advance policy func i j s).jobs x)
        ≤ steps_left (s.jobs x) - (if i == x then 1 else 0)
  unfolding advance
  advance-steps_left i waiting s e x =
      put-steps_left s.jobs i (test policy s.exception)
        (omega (arith, test-steps_left policy s.exception, ap steps_left e)) x
  advance-steps_left i invoking s e x =
      put-steps_left s.jobs i (after (func i))
        (omega (arith, after-steps_left (func i), ap steps_left e)) x
  advance-steps_left i (handling y) s e x = put-steps_left s.jobs i finished (omega arith) x
  advance-steps_left i finished s e x =
      if-elim (λ k. steps_left (s.jobs x) ≤ steps_left (s.jobs x) - k) (i == x) 1 0
        (λ h.
          let q : i ≡ x = (==_iff i x).0 h in
          let z : steps_left (s.jobs x) ≡ 0 =
            ap (λ i. steps_left (s.jobs i)) (sym q) ∙ ap steps_left e in
          omega arith)
        (λ h. omega arith)

  step-steps_left :
      (n x : ℕ) (s : State E) (i : ℕ)
      → i < n
      → steps_left ((step policy func n x s).jobs i)
        ≤ steps_left (s.jobs i) - (if x == i then 1 else 0)
  unfolding step
  step-steps_left n x s i l =
      if-elim {A = State E}
        (λ t. steps_left (t.jobs i) ≤ steps_left (s.jobs i) - (if x == i then 1 else 0)) (ltb x n) _
        _ (λ h. advance-steps_left x (s.jobs x) s refl i) (λ h. ground (arith, h, l))

  run-steps_left :
      (n : ℕ) (is : List ℕ) (s : State E) (i : ℕ)
      → i < n
      → steps_left ((run policy func n is s).jobs i) ≤ steps_left (s.jobs i) - turns i is
  unfolding run
  run-steps_left n [] s i l = omega arith
  run-steps_left n (x ∷ is) s i l =
      omega (arith, run-steps_left n is (step policy func n x s) i l, step-steps_left n x s i l)

  no_steps : (j : Job E) → steps_left j ≤ 0 → j ≡ finished
  no_steps finished h = refl
  no_steps j h = absurd (omega (arith, h))

  -- A job that has three turns ends.
  ends :
      (n : ℕ) (is : List ℕ) (i : ℕ)
      → i < n
      → 3 ≤ turns i is
      → (run policy func n is begin).jobs i ≡ finished
  ends n is i l h = no_steps _ (omega (arith, run-steps_left n is begin i l))

  -- for_each under either job policy, for any function and any order of steps in which the job
  -- of each element has three, ends with each element in one of these states: the function was
  -- called once and returned; it was called once and an exception is rethrown; or, under the
  -- abort policy only, it was not called and an exception is rethrown. An exception that is
  -- rethrown is one that the function threw at an element for which it was called once.
  pub for_each_ends :
      (n : ℕ) (is : List ℕ)
      → ((i : ℕ) → i < n → 3 ≤ turns i is)
      → ((i : ℕ)
          → i < n
          → Ended policy func
              (run policy func n is begin).exception
              i
              ((run policy func n is begin).invoked i))
        × Thrown policy func n (run policy func n is begin)
  for_each_ends n is h =
      let v = run-Inv policy func n is begin (begin-Inv policy func n) in
      (
        λ i l.
            subst
              (Fits policy func (run policy func n is begin).exception i
                ((run policy func n is begin).invoked i))
              (ends n is i l (h i l)) (v.fits i),
        v.thrown,
      )
