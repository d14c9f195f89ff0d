-- ===== src/ParForEach.antt =====
-- include/yk/par_for_each.hpp: `for_each` with a job policy. std::for_each with a parallel policy
-- calls the wrapper once for each element, on any threads, and returns when all calls have; here the
-- calls are jobs whose steps come in any order. A step under the mutex is one step, and so is a call of
-- `func`, a parameter, which returns (`none`) or throws.
pub mod Jobs
pub mod Ends
mod Samples
use yk_util.Base.{
  ℕ, ◌+◌, Bool, true, false, List, [], ◌∷◌, Option, none, some, if◌then◌else◌, ltb, ◌==◌,
}

-- `execution::abort_policy`, `execution::proceed_policy`
pub data JobPolicy : Type 0 where
  abort_policy proceed_policy : JobPolicy

-- Where the call of the wrapper for an element stands: before the test of `exception`, before the
-- call of `func`, in the handler, or behind it.
pub data Job (E : Type 0) : Type 0 where
  waiting invoking finished : Job E
  handling : E → Job E

pub record State (E : Type 0) : Type 0 where
  pub jobs : ℕ → Job E
  pub exception : Option E
  pub invoked : ℕ → ℕ  -- how often `func` was called for an element

abbrev pub is_some : {E : Type 0} → Option E → Bool
is_some none = false
is_some (some e) = true

abbrev pub update : {X : Type 0} → (ℕ → X) → ℕ → X → ℕ → X
update f i a j = if j == i then a else f j

abbrev pub begin : {E : Type 0} → State E
begin = record { jobs = λ i. waiting; exception = none; invoked = λ i. 0 }

module _ {E : Type 0} where
  -- `if (exception) return`, for the abort policy only
  unfoldable pub test : JobPolicy → Option E → Job E
  test abort_policy exception = if is_some exception then finished else invoking
  test proceed_policy exception = invoking

  unfoldable pub after : Option E → Job E
  after none = finished
  after (some e) = handling e

module _ {E : Type 0} (policy : JobPolicy) (func : ℕ → Option E) where
  -- The next step of the job of element `i`.
  unfoldable pub advance : ℕ → Job E → State E → State E
  unfolding test after
  advance i waiting s = record s { jobs = update s.jobs i (test policy s.exception) }
  advance i invoking s = record s {
    jobs = update s.jobs i (after (func i));
    invoked = update s.invoked i (s.invoked i + 1);
  }
  advance i (handling e) s = record s { jobs = update s.jobs i finished; exception = some e }
  advance i finished s = s

  -- A job of the first `n` elements makes a step.
  unfoldable pub step : ℕ → ℕ → State E → State E
  unfolding advance
  step n i s = if ltb i n then advance i (s.jobs i) s else s

  unfoldable pub run : ℕ → List ℕ → State E → State E
  unfolding step
  run n [] s = s
  run n (i ∷ is) s = run n is (step n i s)
