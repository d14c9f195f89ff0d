-- ===== src/Exec/WorkerPool/Exceptions.antt =====
-- Which exceptions leave a pool, and in which order.
use yk_util.Base.{
  ℕ, zero, suc, ◌≡◌, refl, ap, ◌∙◌, Bool, true, false, ◌&&◌, Option-cases, inl, inr, List, [], ◌∷◌,
  Option, none, some, length, arith, if◌then◌else◌,
}
use yk_util.Exec.WorkerPool.{
  ThreadData, WorkerPool, Exit, returns, rethrows, join, rethrow_loop, rethrow_exceptions,
  halt_and_clear_impl, clear_loop, end_at,
}

module _ {E : Type 0} where
  -- The exceptions that the threads end with, or have ended with and that were not rethrown.
  abbrev pub with_some : Option E → List E → List E
  with_some none es = es
  with_some (some e) es = e ∷ es

  abbrev pub pending : List (ThreadData E) → List E
  unfolding join
  pending [] = []
  pending (t ∷ ts) = with_some (join t).exception (pending ts)

  abbrev pub last_exit : Exit E → List E → Exit E
  last_exit x [] = x
  last_exit x (e ∷ es) = last_exit (rethrows e) es

  -- What calls of rethrow_exceptions, one after another, end with.
  unfoldable pub calls_end : ℕ → WorkerPool E → List (Exit E)
  unfolding rethrow_exceptions
  calls_end zero p = []
  calls_end (suc n) p = (rethrow_exceptions p).1 ∷ calls_end n (rethrow_exceptions p).0

  abbrev pub all_rethrown : List E → List (Exit E)
  all_rethrown [] = returns ∷ []
  all_rethrown (e ∷ es) = rethrows e ∷ all_rethrown es

  abbrev pub AllJoinable : List (ThreadData E) → Type 0
  AllJoinable [] = Unit {0}
  AllJoinable (t ∷ ts) = (t.joinable ≡ true) × AllJoinable ts

  -- A thread that ends before it is joined leaves the same exceptions.
  pub pending-end_at :
      (i : ℕ) (ts : List (ThreadData E)) → AllJoinable ts → pending (end_at i ts) ≡ pending ts
  unfolding end_at join
  pending-end_at i [] h = refl
  pending-end_at zero (t ∷ ts) h = ground (arith, h.0)
  pending-end_at (suc i) (t ∷ ts) h = ap (with_some (join t).exception) (pending-end_at i ts h.1)

  -- The exit of one call, and what it leaves.
  abbrev first_exit : List E → Exit E
  first_exit [] = returns
  first_exit (e ∷ es) = rethrows e

  abbrev tail : List E → List E
  tail [] = []
  tail (e ∷ es) = es

  rethrow_loop_lem :
      (ts : List (ThreadData E))
      → ((rethrow_loop ts).1 ≡ first_exit (pending ts))
        × (pending (rethrow_loop ts).0 ≡ tail (pending ts))
  unfolding rethrow_loop join
  rethrow_loop_lem [] = (refl, refl)
  rethrow_loop_lem (t ∷ ts) = ground (arith, rethrow_loop_lem ts)

  -- One call on a pool that was asked to stop.
  rethrow_exceptions_lem :
      (p : WorkerPool E)
      → p.stop_requested ≡ true
      → ((rethrow_exceptions p).1 ≡ first_exit (pending p.threads))
        × (pending (rethrow_exceptions p).0.threads ≡ tail (pending p.threads))
        × ((rethrow_exceptions p).0.stop_requested ≡ true)
  unfolding rethrow_exceptions
  rethrow_exceptions_lem p h = rw h (let (x, y) = rethrow_loop_lem p.threads in (x, y, refl))

  drain :
      (es : List E) (p : WorkerPool E)
      → p.stop_requested ≡ true
      → pending p.threads ≡ es
      → calls_end (suc (length es)) p ≡ all_rethrown es
  unfolding calls_end
  drain [] p h q =
      let (x, y, s) = rethrow_exceptions_lem p h in ap (λ x. x ∷ []) (x ∙ ap first_exit q)
  drain (e ∷ es) p h q =
      let (x, y, s) = rethrow_exceptions_lem p h in
      rw (drain es (rethrow_exceptions p).0 s (y ∙ ap tail q))
        (ap (λ x. x ∷ all_rethrown es) (x ∙ ap first_exit q))

  -- On a pool that was asked to stop, calls of rethrow_exceptions, one after another, rethrow
  -- the exception of each thread once, in the order of the threads, and then return.
  pub rethrow_in_order :
      (p : WorkerPool E)
      → p.stop_requested ≡ true
      → calls_end (suc (length (pending p.threads))) p ≡ all_rethrown (pending p.threads)
  rethrow_in_order p h = drain (pending p.threads) p h refl

  abbrev exit_of : Option E → Exit E
  exit_of none = returns
  exit_of (some e) = rethrows e

  clear_loop_lem :
      (keep : Bool) (o : Option E) (ts : List (ThreadData E))
      → AllJoinable ts
      → exit_of (clear_loop keep o ts)
        ≡ (if keep then last_exit (exit_of o) (pending ts) else exit_of o)
  unfolding clear_loop join
  clear_loop_lem keep o [] h = ground arith
  clear_loop_lem false o (t ∷ ts) h = ground (arith, clear_loop_lem false o ts h.1)
  clear_loop_lem true o (t ∷ ts) h = elim (Option-cases (join t).exception) [
    | inl q ↦ ground (arith, q, h.0, clear_loop_lem true o ts h.1)
    | inr (e, q) ↦ ground (arith, q, h.0, clear_loop_lem true (some e) ts h.1)
  ]

  -- halt_and_clear_impl of a pool whose threads can all be joined asks to stop and leaves no
  -- thread; the one of the destructor then rethrows the exception of the last thread that has
  -- one, if rethrow_exceptions_on_exit_ is set, and all others return.
  pub clear_rethrows_last :
      (is_exiting : Bool) (p : WorkerPool E)
      → AllJoinable p.threads
      → ((halt_and_clear_impl is_exiting p).1 ≡ (
          if is_exiting && p.rethrow_exceptions_on_exit
          then last_exit returns (pending p.threads)
          else returns))
        × ((halt_and_clear_impl is_exiting p).0.threads ≡ [])
        × ((halt_and_clear_impl is_exiting p).0.stop_requested ≡ true)
  unfolding halt_and_clear_impl
  clear_rethrows_last x p h = (
    ground (arith, clear_loop_lem (x && p.rethrow_exceptions_on_exit) none p.threads h),
    refl,
    refl,
  )
