-- ===== src/Exec/Scheduler/Whole/Complete.antt =====
-- What the scheduler over a `cv_queue` has done when it says that all tasks are done.
use yk_util.Base.{
  ℕ, ◌≤◌, ◌≡◌, sym, ap, subst, ◌∙◌, Bool, true, false, List, [], length, total, arith,
}
use yk_util.Exec.Stats.{is_all_task_done}
use yk_util.Exec.CvQueue.Flags.{Traits}
use yk_util.Exec.Scheduler.System.{System, start}
use yk_util.Exec.Scheduler.Invariant.{fresh, taken_by}
use yk_util.Exec.Scheduler.Outcome.{done_means_complete}
use yk_util.Exec.Scheduler.Whole.{Whole, Happening, history}
use yk_util.Exec.Scheduler.Whole.Simulates.{history-simulates}

-- A scheduler that has been started, over a new queue
unfoldable pub whole_start : {A : Type 0} → Bool → ℕ → ℕ → ℕ → ℕ → Whole A
unfolding start
whole_start sized n chunk limit capacity = record {
  scheduler = (fresh sized n chunk limit).scheduler;
  workers = (fresh sized n chunk limit).workers;
  queue = record { buf = []; capacity = capacity; closed = false; not_full = 0; not_empty = 0 };
  stop = false;
  notified = false;
}

abbrev Complete : ℕ → System → Type 0
Complete n s =
    (s.scheduler.stats.producer_input_processed ≡ n)
    × (s.queued ≡ 0)
    × (total taken_by s.workers ≡ 0)
    × (s.scheduler.stats.consumer_input_processed ≡ s.scheduler.stats.producer_output)
    × (s.notified ≡ true)

no_length : {A : Type 0} (xs : List A) → length xs ≡ 0 → xs ≡ []
no_length xs e = ground (arith, e)

module _ {A : Type 0} (t : Traits) where
  -- For a scheduler with counted gates over a new cv_queue of any kind and capacity, any input
  -- size, chunk size of at least one, crew, interleaving and values: if the queue was not closed
  -- and all tasks count as done, then every input has been processed, the buffer of the queue is
  -- empty, no worker holds a value, as many values have been consumed as produced, and the
  -- waiting thread has been notified.
  pub whole_done_means_complete :
      (sized : Bool) (n chunk limit capacity : ℕ) (hs : List (Happening A))
      → 1 ≤ chunk
      → (history t hs (whole_start sized n chunk limit capacity)).queue.closed ≡ false
      → is_all_task_done (history t hs (whole_start sized n chunk limit capacity)).scheduler.stats
        ≡ true
      → let w = history t hs (whole_start sized n chunk limit capacity) in
        (w.scheduler.stats.producer_input_processed ≡ n)
        × (w.queue.buf ≡ [])
        × (total taken_by w.workers ≡ 0)
        × (w.scheduler.stats.consumer_input_processed ≡ w.scheduler.stats.producer_output)
        × (w.notified ≡ true)
  unfolding whole_start start
  whole_done_means_complete sized n chunk limit capacity hs c o d =
      let w = history t hs (whole_start sized n chunk limit capacity) in
      let (es, same) = history-simulates t hs (whole_start sized n chunk limit capacity) in
      let (processed, drained, taken, consumed, told) = subst (Complete n) (sym same) (
        done_means_complete sized n chunk limit es c (ap (λ s. s.closed) (sym same) ∙ o)
          (ap (λ s. is_all_task_done s.scheduler.stats) (sym same) ∙ d)) in
      (processed, no_length w.queue.buf drained, taken, consumed, told)
