-- ===== src/Exec/AtomicQueue/Cancelable.antt =====
-- `queue_traits` of the two atomic queues: cancelable_bounded_push and cancelable_pop, loops of one
-- thread over try_push and try_pop that look at a stop token before each attempt. The steps of the
-- other threads come in between.
use yk_util.Base.{ℕ, Bool, true, false, List, [], ◌∷◌, Option, none, some, ◌==◌, if◌then◌else◌}
use yk_util.Exec.AtomicQueue.{
  Answer, pushed, delivered, Pc, idle, Call, try_push, try_pop, System, Event, calls, moves,
  is_idle, run,
}

-- Where the loop stands: before its test, in an attempt, or returned.
pub data Loop : Type 0 where
  at_test in_attempt : Loop
  returned : Bool → Loop

pub record Cancelable (A : Type 0) : Type 0 where
  pub system : System A
  pub stop : Bool  -- `stop_token.stop_requested()`
  pub loop : Loop

-- What happens: a step of the thread in the loop, an event of another thread, a stop request.
pub data Input (A : Type 0) : Type 0 where
  own : Input A
  other : Event A → Input A
  stops : Input A

abbrev pub succeeded : {A : Type 0} → Answer A → Bool
succeeded pushed = true
succeeded (delivered v) = true
succeeded _ = false

abbrev pub thread_of : {A : Type 0} → Event A → ℕ
thread_of (calls i c) = i
thread_of (moves i) = i

module _ {A : Type 0} (cap size_mod i : ℕ) (attempt : Call A) where
  -- The event of the queue that a step of the thread is, if it is one.
  abbrev pub own_event : Cancelable A → Option (Event A)
  own_event c = elim c.loop [
    | at_test ↦ if c.stop then none else some (calls i attempt)
    | in_attempt ↦ if is_idle (c.system.pc i) then none else some (moves i)
    | returned b ↦ none
  ]

  -- What a return value of an attempt makes of the loop
  abbrev pub after_attempt : Pc A → Loop
  after_attempt (idle a) = if succeeded a then returned true else at_test
  after_attempt _ = in_attempt

  abbrev pub next_loop : Cancelable A → Loop
  next_loop c = elim c.loop [
    | at_test ↦ if c.stop then returned false else in_attempt
    | in_attempt ↦ after_attempt (c.system.pc i)
    | returned b ↦ returned b
  ]

  abbrev pub events_at : Cancelable A → Input A → List (Event A)
  events_at c own = elim (own_event c) [ none ↦ [] | some e ↦ e ∷ [] ]
  events_at c (other e) = if thread_of e == i then [] else e ∷ []
  events_at c stops = []

  unfoldable pub loop_step : Cancelable A → Input A → Cancelable A
  unfolding run
  loop_step c own = record c {
    system = run cap size_mod (events_at c own) c.system;
    loop = next_loop c;
  }
  loop_step c (other e) = record c { system = run cap size_mod (events_at c (other e)) c.system }
  loop_step c stops = record c { stop = true }

  unfoldable pub loop_run : Cancelable A → List (Input A) → Cancelable A
  unfolding loop_step
  loop_run c [] = c
  loop_run c (x ∷ xs) = loop_run (loop_step c x) xs

-- `cancelable_bounded_push` and `cancelable_pop`, as they are called
abbrev pub cancelable_bounded_push :
    {A : Type 0} → ℕ → ℕ → ℕ → A → Cancelable A → List (Input A) → Cancelable A
cancelable_bounded_push cap size_mod i v = loop_run cap size_mod i (try_push v)

abbrev pub cancelable_pop : {A : Type 0} → ℕ → ℕ → ℕ → Cancelable A → List (Input A) → Cancelable A
cancelable_pop cap size_mod i = loop_run cap size_mod i try_pop
