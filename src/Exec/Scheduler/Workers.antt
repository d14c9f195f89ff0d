-- ===== src/Exec/Scheduler/Workers.antt =====
-- The worker loops of include/yk/exec/scheduler.hpp, `fixed_producer`, `fixed_consumer` and
-- `dynamic_worker`, and the crew that `start` launches.
use yk_util.Base.{ℕ, zero, suc, ◌-◌, true, false, List, [], ◌∷◌}
use yk_util.Exec.Scheduler.{Verdict, switch, still_required}

pub data Mode : Type 0 where
  producer consumer : Mode

pub data Kind : Type 0 where
  fixed_producer fixed_consumer dynamic_worker : Kind

-- Where a worker stands: at the head of its loop, behind the test of the loop, between the critical
-- sections with the chunk that it holds and what its counted gate has counted, returned, ended by
-- an exception of its callback with what it held, or ended by one of the bookkeeping.
pub data Phase : Type 0 where
  at_head tested : Phase
  producing : (count made : ℕ) → Phase
  consuming : (taken : ℕ) → Phase
  finished : Phase
  abandoned_producing : (count made : ℕ) → Phase
  abandoned_consuming : (taken : ℕ) → Phase
  crashed : Phase

pub record Worker : Type 0 where
  pub kind : Kind
  pub mode : Mode
  pub phase : Phase

abbrev pub launch : Kind → Mode → Worker
launch k m = record { kind = k; mode = m; phase = at_head }

-- `launch_rest`: `dynamic_worker` on each thread that is left
unfoldable pub launch_rest : ℕ → List Worker
launch_rest zero = []
launch_rest (suc n) = launch dynamic_worker producer ∷ launch_rest n

-- `start` on a pool with no thread yet
unfoldable pub crew : ℕ → List Worker
unfolding launch_rest
crew worker_limit =
    launch fixed_consumer consumer ∷ launch fixed_producer producer ∷ launch_rest (worker_limit - 2)

-- After `do_worker_producer`: a fixed producer goes to its second loop, a dynamic worker changes
-- its mode, also when the producers outpace the consumers.
unfoldable pub after_producer : Verdict → Worker → Worker
after_producer switch w = record w { mode = consumer; phase = at_head }
after_producer (still_required ratio) w = record w {
  phase = at_head;
  mode = elim (w.kind) [
    | dynamic_worker ↦ elim ratio [ true ↦ consumer | false ↦ producer ]
    | _ ↦ w.mode
  ];
}

-- After `do_worker_consumer`: every loop over it ends on `return {}`; a dynamic worker produces
-- again when the producers do not outpace the consumers.
unfoldable pub after_consumer : Verdict → Worker → Worker
after_consumer switch w = record w { phase = finished }
after_consumer (still_required ratio) w = record w {
  phase = at_head;
  mode = elim (w.kind) [
    | dynamic_worker ↦ elim ratio [ true ↦ consumer | false ↦ producer ]
    | _ ↦ w.mode
  ];
}
