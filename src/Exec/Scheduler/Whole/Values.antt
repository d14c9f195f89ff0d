-- ===== src/Exec/Scheduler/Whole/Values.antt =====
-- What becomes of the values that the callbacks push, by way of the history of the queue.
use mathlib.Core.List.{Perm}
use yk_util.Base.{
  ℕ, ◌+◌, ◌≤◌, ◌≡◌, refl, sym, ap, subst, ◌∙◌, Bool, true, false, List, [], ◌∷◌, ◌++◌, Option, none,
  some, get_elem?, append-nil,
}
use yk_util.Exec.Stats.{is_all_task_done}
use yk_util.Exec.CvQueue.{
  CvQueue, Outcome, waits, returned, interrupted, undefined, push_wait, pop_wait, close,
}
use yk_util.Exec.CvQueue.Flags.{Traits}
use yk_util.Exec.CvQueue.Run.{Call, pushes, pops, closes, History}
use yk_util.Exec.CvQueue.Run
use yk_util.Exec.CvQueue.Conservation.{held, conservation}
use yk_util.Exec.Scheduler.Workers.{Phase, producing, consuming, Worker}
use yk_util.Exec.Scheduler.System.{accesses, worker, stops, aborts}
use yk_util.Exec.Scheduler.System
use yk_util.Exec.Scheduler.Whole.{
  Whole, Happening, event, access, ends_access, access_in, access_at, happen, history,
}
use yk_util.Exec.Scheduler.Whole.Complete.{whole_start, whole_done_means_complete}

-- The call of the queue that is made in a phase, and by what happens.
abbrev pub call_in : {A : Type 0} → Phase → A → List (Call A)
call_in (producing count made) x = pushes x ∷ []
call_in (consuming taken) x = pops ∷ []
call_in _ x = []

abbrev pub call_at : {A : Type 0} → Option Worker → A → List (Call A)
call_at none x = []
call_at (some wk) x = call_in wk.phase x

abbrev pub calls_at : {A : Type 0} → Happening A → Whole A → List (Call A)
calls_at (access i x) w = call_at (get_elem? w.workers i) x
calls_at (event System.closes) w = closes ∷ []
calls_at (event aborts) w = closes ∷ []
calls_at (event _) w = []

module _ {A : Type 0} (t : Traits) where
  abbrev pub calls_of : List (Happening A) → Whole A → List (Call A)
  calls_of [] w = []
  calls_of (h ∷ hs) w = calls_at h w ++ calls_of hs (happen t h w)

  -- The queue after some calls, which discard nothing.
  record Follows (r : History A) (q : CvQueue A) (cs : List (Call A)) : Type 0 where
    queue : (Run.run t 0 r cs).queue ≡ q
    discarded : (Run.run t 0 r cs).discarded ≡ r.discarded

  ends-queue :
      {R : Type 0} (i : ℕ) (wk : Worker) (p : Phase) (r : CvQueue A × Outcome R) (w : Whole A)
      → (ends_access i wk p r w).queue ≡ r.0
  ends-queue i wk p (q, waits) w = refl
  ends-queue i wk p (q, returned r) w = refl
  ends-queue i wk p (q, interrupted) w = refl
  ends-queue i wk p (q, undefined) w = refl

  access_in-Follows :
      (p : Phase) (r : History A) (w : Whole A) (i : ℕ) (x : A) (wk : Worker)
      → r.queue ≡ w.queue
      → Follows r (access_in t p i x wk w).queue (call_in p x)
  unfolding access_in Run.run Run.step
  access_in-Follows (producing count made) r w i x wk e = record {
    queue =
        ap (λ q. (push_wait t q x).0) e
        ∙ sym (ends-queue i wk (producing count (made + 1)) (push_wait t w.queue x) w);
    discarded = refl;
  }
  access_in-Follows (consuming taken) r w i x wk e = record {
    queue =
        ap (λ q. (pop_wait t q).0) e
        ∙ sym (ends-queue i wk (consuming (taken + 1)) (pop_wait t w.queue) w);
    discarded = refl;
  }
  access_in-Follows _ r w i x wk e = record { queue = e; discarded = refl }

  access_at-Follows :
      (o : Option Worker) (r : History A) (w : Whole A) (i : ℕ) (x : A)
      → r.queue ≡ w.queue
      → Follows r (access_at t i x o w).queue (call_at o x)
  unfolding access_at Run.run
  access_at-Follows none r w i x e = record { queue = e; discarded = refl }
  access_at-Follows (some wk) r w i x e = access_in-Follows wk.phase r w i x wk e

  happen-Follows :
      (h : Happening A) (r : History A) (w : Whole A)
      → r.queue ≡ w.queue
      → Follows r (happen t h w).queue (calls_at h w)
  unfolding happen Run.run Run.step
  happen-Follows (access i x) r w e = access_at-Follows (get_elem? w.workers i) r w i x e
  happen-Follows (event System.closes) r w e = record { queue = ap close e; discarded = refl }
  happen-Follows (event aborts) r w e = record { queue = ap close e; discarded = refl }
  happen-Follows (event stops) r w e = record { queue = e; discarded = refl }
  happen-Follows (event (worker i accesses)) r w e = record { queue = e; discarded = refl }
  happen-Follows (event (worker i a)) r w e = record { queue = e; discarded = refl }

  run-append :
      (cs ds : List (Call A)) (r : History A)
      → Run.run t 0 r (cs ++ ds) ≡ Run.run t 0 (Run.run t 0 r cs) ds
  unfolding Run.run
  run-append [] ds r = refl
  run-append (c ∷ cs) ds r = run-append cs ds (Run.step t 0 r c)

  history-Follows :
      (hs : List (Happening A)) (r : History A) (w : Whole A)
      → r.queue ≡ w.queue
      → Follows r (history t hs w).queue (calls_of hs w)
  unfolding history Run.run
  history-Follows [] r w e = record { queue = e; discarded = refl }
  history-Follows (h ∷ hs) r w e =
      let first = happen-Follows h r w e in
      let mid = Run.run t 0 r (calls_at h w) in
      let rest = history-Follows hs mid (happen t h w) first.queue in
      let whole = run-append (calls_at h w) (calls_of hs (happen t h w)) r in
      record {
        queue = ap (λ k. k.queue) whole ∙ rest.queue;
        discarded = ap (λ k. k.discarded) whole ∙ rest.discarded ∙ first.discarded;
      }

  -- The calls of the queue in a history from the start
  abbrev pub queue_history : Bool → ℕ → ℕ → ℕ → ℕ → List (Happening A) → History A
  queue_history sized n chunk limit capacity hs =
      Run.run t 0 (Run.start capacity) (calls_of hs (whole_start sized n chunk limit capacity))

  -- For a scheduler with counted gates over a new cv_queue of any kind and capacity, any input
  -- size, chunk size of at least one, crew, interleaving and values: the queue is what the calls
  -- of the gates make of it, and if it was not closed and all tasks count as done, then the
  -- values whose push was accepted are, up to order and with multiplicity, the values that were
  -- handed to the consumers.
  pub all_values_arrive :
      (sized : Bool) (n chunk limit capacity : ℕ) (hs : List (Happening A))
      → 1 ≤ chunk
      → (history t hs (whole_start sized n chunk limit capacity)).queue.closed ≡ false
      → is_all_task_done (history t hs (whole_start sized n chunk limit capacity)).scheduler.stats
        ≡ true
      → ((queue_history sized n chunk limit capacity hs).queue
          ≡ (history t hs (whole_start sized n chunk limit capacity)).queue)
        × Perm
            (queue_history sized n chunk limit capacity hs).accepted
            (queue_history sized n chunk limit capacity hs).delivered
  unfolding whole_start Run.start
  all_values_arrive sized n chunk limit capacity hs c o d =
      let w = whole_start sized n chunk limit capacity in
      let f = history-Follows hs (Run.start capacity) w refl in
      let (_, drained, _, _, _) =
        whole_done_means_complete t sized n chunk limit capacity hs c o d in
      let r = queue_history sized n chunk limit capacity hs in
      let d = r.delivered in
      let alone : held d r.discarded r.queue.buf ≡ d =
        ap (λ z. d ++ (z ++ r.queue.buf)) f.discarded
        ∙ ap (λ b. d ++ b) (ap (λ q. q.buf) f.queue ∙ drained)
        ∙ append-nil d in
      (
        f.queue,
        subst (Perm r.accepted) alone
            (conservation t 0 capacity (calls_of hs (whole_start sized n chunk limit capacity))),
      )
