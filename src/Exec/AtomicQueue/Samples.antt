-- ===== src/Exec/AtomicQueue/Samples.antt =====
-- A short run with two threads over a store of two slots.
use yk_util.Base.{
  true, ℕ, zero, ◌+◌, ◌<◌, ◌≡◌, refl, false, List, [], ◌∷◌, ◌++◌, some, arith, if-elim, ◌==◌,
  if◌then◌else◌, ◌≤◌,
}
use yk_util.Exec.AtomicQueue.Invariant.{ticket}
use yk_util.Exec.AtomicQueue.Progress.{Rests, waits_for_room}
use yk_util.Exec.AtomicQueue.{
  is_idle, destroy_slots, live, idle, delivered, empty, refused, Event, calls, moves, push, pop,
  try_push, try_pop, init, run, idx, turn, constructing,
}
use yk_util.Exec.AtomicQueue.{start, advance}
use yk_util.Exec.AtomicQueue.Cancelable.{
  Cancelable, Input, own, other, at_test, in_attempt, returned, loop_run, cancelable_bounded_push,
}
use yk_util.Exec.AtomicQueue.Attempts.{looking, finished, Follows, pushes_once}
use yk_util.Exec.AtomicQueue.Attempts.Runs.{loop_events}
use yk_util.Exec.AtomicQueue.Ends.{alone, has_returned, stopped_loop_returns}
use yk_util.Exec.AtomicQueue.Destructor.{destructor_sound}
use yk_util.Exec.AtomicQueue.Safety.{pops_in_order, storage_sound, exclusive, work}

-- Thread 0 pushes 5, up to the construction.
abbrev begun : List (Event ℕ)
begun = calls 0 (push 5) ∷ moves 0 ∷ []

-- It ends, and thread 1, which has waited, pops.
abbrev ended : List (Event ℕ)
ended =
    calls 1 pop ∷ moves 1 ∷ begun ++ moves 0 ∷ moves 0 ∷ moves 1 ∷ moves 1 ∷ moves 1 ∷ moves 1 ∷ []

begun_result : (run 2 64 begun init).pc 0 ≡ constructing 0 5
unfolding run idx turn
begun_result = refl

ended_result : (run 2 64 ended init).pc 1 ≡ idle (delivered 5)
unfolding run idx turn
ended_result = refl

-- Two pushes fill the store, and a third is refused.
abbrev crowded : List (Event ℕ)
crowded =
    calls 0 (push 5)
    ∷ moves 0
    ∷ moves 0
    ∷ moves 0
    ∷ calls 0 (try_push 6)
    ∷ moves 0
    ∷ moves 0
    ∷ moves 0
    ∷ moves 0
    ∷ calls 1 (try_push 7)
    ∷ moves 1
    ∷ moves 1
    ∷ []

crowded_result : (run 2 64 crowded init).pc 1 ≡ idle refused
unfolding run idx turn
crowded_result = refl

abbrev hungry : List (Event ℕ)
hungry = calls 1 try_pop ∷ moves 1 ∷ moves 1 ∷ []

hungry_result : (run 2 64 hungry init).pc 1 ≡ idle empty
unfolding run idx turn
hungry_result = refl

ended_ticket : (run 2 64 ended init).mem.popped 0 ≡ some 5
unfolding run idx turn
ended_ticket = refl

begun_holds : work ((run 2 64 begun init).pc 0) ≡ some (0, 0)
unfolding run idx turn
begun_holds = refl

pops_in_order_example : (run 2 64 ended init).mem.pushed 0 ≡ some 5
pops_in_order_example = pops_in_order 2 64 ended (omega arith) 0 5 ended_ticket

storage_sound_example : (run 2 64 ended init).mem.fault ≡ false
storage_sound_example = storage_sound 2 64 ended (omega arith)

exclusive_example : 0 ≡ zero
exclusive_example = exclusive 2 64 begun (omega arith) 0 0 0 0 0 0 begun_holds begun_holds refl

-- A pop on an empty queue waits, and nobody else does anything.
abbrev waiting : List (Event ℕ)
waiting = calls 1 pop ∷ []

waiting-Rests : (i : ℕ) → Rests 2 (run 2 64 waiting init).mem ((run 2 64 waiting init).pc i)
unfolding run idx turn
waiting-Rests i = if-elim (Rests 2 (run 2 64 waiting init).mem) (i == 1) _ _ (λ e. refl) (λ e. tt)

waiting_holds : ticket ((run 2 64 waiting init).pc 1) ≡ some (1, 0)
unfolding run
waiting_holds = refl

waits_for_room_example :
    (if 1 == 0 then (run 2 64 waiting init).mem.tail + 2 else (run 2 64 waiting init).mem.head) ≤ 0
waits_for_room_example =
    waits_for_room 2 64 waiting (omega arith) (omega arith) waiting-Rests 1 1 0 waiting_holds

-- One push, whose value nobody pops.
abbrev left_over : List (Event ℕ)
left_over = begun ++ moves 0 ∷ moves 0 ∷ []

left_over_idle : (i : ℕ) → is_idle ((run 2 64 left_over init).pc i) ≡ true
unfolding run idx turn
left_over_idle i = ground arith

destructor_sound_example :
    ((destroy_slots 2 2 0 (run 2 64 left_over init).mem).fault ≡ false)
    × ((s : ℕ)
        → s < 2
        → live ((destroy_slots 2 2 0 (run 2 64 left_over init).mem).storage s) ≡ false)
destructor_sound_example = destructor_sound 2 64 left_over (omega arith) left_over_idle

-- Thread 1 pushes in a loop while thread 0 fills the other slot.
abbrev looping : Cancelable ℕ
looping = record { system = init; stop = false; loop = at_test }

abbrev around : List (Input ℕ)
around =
    own
    ∷ other (calls 0 (try_push 5))
    ∷ own
    ∷ other (moves 0)
    ∷ other (moves 0)
    ∷ own
    ∷ own
    ∷ own
    ∷ own
    ∷ own
    ∷ own
    ∷ own
    ∷ own
    ∷ own
    ∷ []

around_result : (cancelable_bounded_push 2 64 1 9 looping around).loop ≡ returned true
unfolding loop_run run start advance idx turn
around_result = refl

pushes_once_example :
    Follows 2 64 1 9 looking looping around finished
    × ((loop_run 2 64 1 (try_push 9) looping around).system
        ≡ run 2 64 (loop_events 2 64 1 (try_push 9) looping around) looping.system)
pushes_once_example = pushes_once 2 64 1 9 looping around true refl refl around_result

abbrev asked : Cancelable ℕ
asked = record { system = (run 2 64 hungry init); stop = true; loop = in_attempt }

stopped_loop_returns_example :
    has_returned 2 64 1 try_pop (loop_run 2 64 1 try_pop asked (alone 2 64 1 try_pop 10)) ≡ true
unfolding run start advance turn
stopped_loop_returns_example = stopped_loop_returns 2 64 1 try_pop asked refl refl
