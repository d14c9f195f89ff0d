-- ===== src/Exec/AtomicQueue/Attempts/Runs.antt =====
-- The loops over try_push and try_pop are runs of the queue.
use yk_util.Base.{ℕ, List, [], ◌∷◌, ◌++◌, ◌≡◌, refl, sym, ap, ◌∙◌}
use yk_util.Exec.AtomicQueue.{Call, System, Event, step, run}
use yk_util.Exec.AtomicQueue.Cancelable.{
  Cancelable, Input, own, other, stops, events_at, loop_step, loop_run,
}

module _ {A : Type 0} (cap size_mod i : ℕ) (attempt : Call A) where
  abbrev pub loop_events : Cancelable A → List (Input A) → List (Event A)
  loop_events c [] = []
  loop_events c (x ∷ xs) =
      events_at cap size_mod i attempt c x ++ loop_events (loop_step cap size_mod i attempt c x) xs

  run-append :
      (es fs : List (Event A)) (s : System A)
      → run cap size_mod (es ++ fs) s ≡ run cap size_mod fs (run cap size_mod es s)
  unfolding run
  run-append [] fs s = refl
  run-append (e ∷ es) fs s = run-append es fs (step cap size_mod e s)

  step-is_run :
      (c : Cancelable A) (x : Input A)
      → (loop_step cap size_mod i attempt c x).system
        ≡ run cap size_mod (events_at cap size_mod i attempt c x) c.system
  unfolding loop_step run
  step-is_run c own = refl
  step-is_run c (other e) = refl
  step-is_run c stops = refl

  pub loop_run-is_run :
      (c : Cancelable A) (xs : List (Input A))
      → (loop_run cap size_mod i attempt c xs).system ≡ run cap size_mod (loop_events c xs) c.system
  unfolding loop_run run
  loop_run-is_run c [] = refl
  loop_run-is_run c (x ∷ xs) =
      loop_run-is_run (loop_step cap size_mod i attempt c x) xs
      ∙ ap (run cap size_mod (loop_events (loop_step cap size_mod i attempt c x) xs))
          (step-is_run c x)
      ∙ sym (run-append (events_at cap size_mod i attempt c x) _ c.system)
