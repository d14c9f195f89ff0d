-- ===== src/Exec/CvQueue/Samples.antt =====
-- Tests of the queue on small inputs, and the theorems at inputs that meet their hypotheses.
use yk_util.Base.{ℕ, ◌≡◌, refl, true, false, List, [], ◌∷◌, ◌++◌, arith}
use mathlib.Core.List.{Perm}
use yk_util.Base.Int.{pos}
use yk_util.Exec.CvQueue.Flags.{Traits, traits, with_kind}
use yk_util.Exec.CvQueue.{
  CvQueue, clear, close, open_again, pop_notify, do_pop, pop_back, push, pop, push_wait, pop_wait,
}
use yk_util.Exec.CvQueue.Run.{
  Call, pushes, pops, closes, opens, clears, sets_capacity, History, step, run, start,
}
use yk_util.Exec.CvQueue.Conservation.{held, conservation}
use yk_util.Exec.CvQueue.Fifo.{fifo}
use yk_util.Exec.CvQueue.Wakeups.{Awake, no_lost_wakeup}
use yk_util.Exec.CvQueue.Stranded.{Deadlocked, pop_times, set_capacity_strands}

-- `mpmc_cv_deque` with `queue_based_push_pop`, and an `spsc_cv_vector`
abbrev fifo_traits : Traits
fifo_traits = record {
  is_multi_producer = true;
  is_multi_consumer = true;
  is_queue_based_push_pop = true;
}

abbrev spsc_stack : Traits
spsc_stack = record {
  is_multi_producer = false;
  is_multi_consumer = false;
  is_queue_based_push_pop = false;
}

flags_of_aliases : (traits (with_kind 3 8) ≡ fifo_traits) × (traits (with_kind 0 0) ≡ spsc_stack)
unfolding traits with_kind
flags_of_aliases = (refl, refl)

abbrev calls : List (Call ℕ)
calls = pushes 1 ∷ pushes 2 ∷ pops ∷ pushes 3 ∷ pushes 4 ∷ pops ∷ []

fifo_run : (run fifo_traits 10 (start 2) calls).delivered ≡ 1 ∷ 2 ∷ []
unfolding run step start push_wait pop_wait push pop do_pop
fifo_run = refl

stack_run : (run spsc_stack 10 (start 2) calls).delivered ≡ 2 ∷ 3 ∷ []
unfolding run step start push_wait pop_wait push pop do_pop pop_back
stack_run = refl

-- What is held at `close` is not handed out.
closed_run : (run {A = ℕ} fifo_traits 10 (start 2) (pushes 1 ∷ closes ∷ pops ∷ [])).delivered ≡ []
unfolding run step start push_wait pop_wait push pop do_pop close
closed_run = refl

-- One call of each kind, with a producer and a consumer that sleep.
abbrev busy : List (Call ℕ)
busy = pops ∷ pushes 1 ∷ pushes 2 ∷ pushes 3 ∷ pops ∷ clears ∷ closes ∷ opens ∷ []

fifo_example :
    (run fifo_traits 10 (start 2) calls).delivered ++ (run fifo_traits 10 (start 2) calls).queue.buf
    ≡ (run fifo_traits 10 (start 2) calls).accepted
fifo_example = fifo fifo_traits 10 2 calls refl tt

abbrev one_held : CvQueue ℕ
one_held = record { buf = 7 ∷ []; capacity = 2; closed = false; not_full = 0; not_empty = 0 }

conservation_example : Perm (run fifo_traits 10 (start 2) busy).accepted (
    held
      (run fifo_traits 10 (start 2) busy).delivered
      (run fifo_traits 10 (start 2) busy).discarded
      (run fifo_traits 10 (start 2) busy).queue.buf)
conservation_example = conservation fifo_traits 10 2 busy

no_lost_wakeup_example : Awake spsc_stack (run spsc_stack 10 (start 2) busy).queue
unfolding run step start push_wait pop_wait push pop do_pop pop_back clear close open_again
    pop_notify
no_lost_wakeup_example = no_lost_wakeup spsc_stack 10 2 busy (ground arith)

-- a full spsc queue whose producer sleeps
abbrev full : History ℕ
full = record {
  queue = record { buf = 7 ∷ []; capacity = 1; closed = false; not_full = 1; not_empty = 0 };
  accepted = 7 ∷ [];
  delivered = [];
  discarded = [];
}

set_capacity_strands_example :
    Deadlocked (run spsc_stack 10 full (sets_capacity (pos 4) ∷ pop_times 2)).queue
set_capacity_strands_example =
    set_capacity_strands spsc_stack 10 4 full refl refl (omega arith) (omega arith) refl
      (omega arith)
