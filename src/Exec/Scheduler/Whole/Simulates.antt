-- ===== src/Exec/Scheduler/Whole/Simulates.antt =====
-- A history of the scheduler over a `cv_queue` is a run of its view.
use yk_util.Base.{
  ℕ, ◌+◌, ◌-◌, ◌<◌, ◌≡◌, refl, sym, ap, ◌∙◌, Bool, true, false, List, [], ◌∷◌, ◌++◌, Option, none,
  some, arith, get_elem?, length, inl, inr, length-append, if◌then◌else◌,
}
use yk_util.Exec.CvQueue.{CvQueue, Outcome, waits, returned, push_wait, pop_wait, close}
use yk_util.Exec.CvQueue.Flags.{Traits}
use yk_util.Exec.CvQueue.Branches.{push_wait_cases, pop_wait_cases, Takes-length}
use yk_util.Exec.CvQueue.Closed.{push_wait-closed, pop_wait-closed}
use yk_util.Exec.Scheduler.{Report, report_producer, report_consumer}
use yk_util.Exec.Scheduler.Workers.{
  Mode, producer, consumer, after_producer, after_consumer, Phase, at_head, tested, producing,
  consuming, Worker,
}
use yk_util.Exec.Scheduler.System.{
  System, Action, checks, enters, reports, raises, enter, finish, accesses, Event, worker, stops,
  closes, aborts, act, act_at, step, run,
}
use yk_util.Exec.Scheduler.Whole.{
  Whole, Happening, event, access, view, keeps_queue, ends_access, access_in, access_at, happen,
  history,
}

-- Every action but an access leaves the queue as it is.
abbrev is_access : Action → Bool
is_access accesses = true
is_access _ = false

abbrev SameQueue : System → System → Type 0
SameQueue s u = (u.queued ≡ s.queued) × (u.closed ≡ s.closed)

enter-queue : (m : Mode) (s : System) (w : Worker) → SameQueue s (enter m s w).0
unfolding enter
enter-queue producer s w = ground arith
enter-queue consumer s w = (refl, refl)

finish-queue : (s : System) (r : Report) (a b : Worker) → SameQueue s (finish s r a b).0
unfolding finish
finish-queue s r a b = ground arith

act-queue :
    (a : Action) (p : Phase) (s : System) (w : Worker)
    → is_access a ≡ false
    → SameQueue s (act a p s w).0
unfolding act
act-queue accesses p s w h = cc
act-queue checks at_head s w h = (refl, refl)
act-queue enters tested s w h = enter-queue w.mode s w
act-queue reports (producing count made) s w h =
    let r = report_producer count made s.scheduler.stats in
    finish-queue s r w (after_producer r.verdict w)
act-queue reports (consuming taken) s w h =
    let r = report_consumer taken s.scheduler.stats in
    finish-queue s r w (after_consumer r.verdict w)
act-queue raises (producing count made) s w h = (refl, refl)
act-queue raises (consuming taken) s w h = (refl, refl)
act-queue _ _ s w h = (refl, refl)

act_at-queue :
    (s : System) (i : ℕ) (a : Action) (o : Option Worker)
    → is_access a ≡ false
    → SameQueue s (act_at s i a o)
unfolding act_at
act_at-queue s i a none h = (refl, refl)
act_at-queue s i a (some w) h = act-queue a w.phase s w h

run-append : (es fs : List Event) (s : System) → run s (es ++ fs) ≡ run (run s es) fs
unfolding run
run-append [] fs s = refl
run-append (e ∷ es) fs s = run-append es fs (step s e)

module _ {A : Type 0} (t : Traits) where
  stays :
      {R : Type 0} (w : Whole A) (i : ℕ) (wk : Worker) (p : Phase) (q : CvQueue A) (o : Outcome R)
      → o ≡ waits
      → length q.buf ≡ length w.queue.buf
      → q.closed ≡ w.queue.closed
      → (es : List Event) × (view (ends_access i wk p (q, o) w) ≡ run (view w) es)
  unfolding run
  stays w i wk p q o e l c = ([], ground (arith, e, l, c))

  pushes :
      (w : Whole A) (i : ℕ) (wk : Worker) (count made : ℕ) (q : CvQueue A) (o : Outcome Bool)
      (b : Bool)
      → get_elem? w.workers i ≡ some wk
      → wk.phase ≡ producing count made
      → o ≡ returned b
      → length q.buf ≡ (if w.queue.closed then length w.queue.buf else length w.queue.buf + 1)
      → q.closed ≡ w.queue.closed
      → (es : List Event) × (view (ends_access i wk (producing count (made + 1)) (q, o) w)
          ≡ run (view w) es)
  unfolding run step act_at act
  pushes w i wk count made q o b e p r l c = (worker i accesses ∷ [], ground (arith, e, p, r, l, c))

  pops :
      (w : Whole A) (i : ℕ) (wk : Worker) (taken : ℕ) (q : CvQueue A) (o : Outcome (Option A))
      (v : Option A)
      → get_elem? w.workers i ≡ some wk
      → wk.phase ≡ consuming taken
      → o ≡ returned v
      → (w.queue.closed ≡ false → 0 < length w.queue.buf)
      → length q.buf ≡ (if w.queue.closed then length w.queue.buf else length w.queue.buf - 1)
      → q.closed ≡ w.queue.closed
      → (es : List Event) × (view (ends_access i wk (consuming (taken + 1)) (q, o) w)
          ≡ run (view w) es)
  unfolding run step act_at act
  pops w i wk taken q o v e p r n l c = (worker i accesses ∷ [], ground (arith, e, p, r, n, l, c))

  viewed :
      (q : CvQueue A) (s : System)
      → s.queued ≡ length q.buf
      → s.closed ≡ q.closed
      → view (keeps_queue q s) ≡ s
  viewed q s e c = ground (arith, e, c)

  push-simulates :
      (w : Whole A) (i : ℕ) (wk : Worker) (count made : ℕ) (x : A)
      → get_elem? w.workers i ≡ some wk
      → wk.phase ≡ producing count made
      → (es : List Event) × (view
            (ends_access i wk (producing count (made + 1)) (push_wait t w.queue x) w)
          ≡ run (view w) es)
  push-simulates w i wk count made x e p =
      let q = (push_wait t w.queue x).0 in
      let o = (push_wait t w.queue x).1 in
      let c = push_wait-closed t w.queue x in
      elim (push_wait_cases t w.queue x) [
        | inl (open_still, full, sleeps, kept) ↦
            stays w i wk (producing count (made + 1)) q o sleeps (ap length kept) c
        | inr (inl (gone, same)) ↦
            pushes w i wk count made q o false e p (ap (λ r. r.1) same)
              (ground (arith, gone, ap (λ r. length r.0.buf) same)) c
        | inr (inr (open_still, room, done, kept)) ↦
            pushes w i wk count made q o true e p done
              (ground (arith, open_still, ap length kept, length-append w.queue.buf (x ∷ []))) c
      ]

  pop-simulates :
      (w : Whole A) (i : ℕ) (wk : Worker) (taken : ℕ)
      → get_elem? w.workers i ≡ some wk
      → wk.phase ≡ consuming taken
      → (es : List Event) × (view (ends_access i wk (consuming (taken + 1)) (pop_wait t w.queue) w)
          ≡ run (view w) es)
  pop-simulates w i wk taken e p =
      let q = (pop_wait t w.queue).0 in
      let o = (pop_wait t w.queue).1 in
      let c = pop_wait-closed t w.queue in
      elim (pop_wait_cases t w.queue) [
        | inl (open_still, empty, sleeps, kept) ↦
            stays w i wk (consuming (taken + 1)) q o sleeps (ap length kept ∙ sym (ap length empty))
              c
        | inr (inl (gone, same)) ↦
            pops w i wk taken q o none e p (ap (λ r. r.1) same) (ground (arith, gone))
              (ground (arith, gone, ap (λ r. length r.0.buf) same)) c
        | inr (inr (open_still, (x, rest, took, done, kept))) ↦
            pops w i wk taken q o (some x) e p done
              (ground (arith, Takes-length t w.queue.buf x rest took))
              (ground (arith, open_still, ap length kept, Takes-length t w.queue.buf x rest took)) c
      ]

  access_in-simulates :
      (p : Phase) (w : Whole A) (i : ℕ) (x : A) (wk : Worker)
      → get_elem? w.workers i ≡ some wk
      → wk.phase ≡ p
      → (es : List Event) × (view (access_in t p i x wk w) ≡ run (view w) es)
  unfolding access_in run
  access_in-simulates (producing count made) w i x wk e p = push-simulates w i wk count made x e p
  access_in-simulates (consuming taken) w i x wk e p = pop-simulates w i wk taken e p
  access_in-simulates _ w i x wk e p = ([], refl)

  access_at-simulates :
      (w : Whole A) (i : ℕ) (x : A) (o : Option Worker)
      → get_elem? w.workers i ≡ o
      → (es : List Event) × (view (access_at t i x o w) ≡ run (view w) es)
  unfolding access_at run
  access_at-simulates w i x none e = ([], refl)
  access_at-simulates w i x (some wk) e = access_in-simulates wk.phase w i x wk e refl

  happen-simulates :
      (h : Happening A) (w : Whole A) → (es : List Event) × (view (happen t h w) ≡ run (view w) es)
  unfolding happen run close step
  happen-simulates (access i x) w = access_at-simulates w i x (get_elem? w.workers i) refl
  happen-simulates (event stops) w = (stops ∷ [], refl)
  happen-simulates (event closes) w = (closes ∷ [], refl)
  happen-simulates (event aborts) w = (aborts ∷ [], refl)
  happen-simulates (event (worker i accesses)) w = ([], refl)
  happen-simulates (event (worker i a)) w =
      let (same, closed) = act_at-queue (view w) i a (get_elem? w.workers i) refl in
      (worker i a ∷ [], viewed w.queue (step (view w) (worker i a)) same closed)

  pub history-simulates :
      (hs : List (Happening A)) (w : Whole A)
      → (es : List Event) × (view (history t hs w) ≡ run (view w) es)
  unfolding history run
  history-simulates [] w = ([], refl)
  history-simulates (h ∷ hs) w =
      let (es, first) = happen-simulates h w in
      let (fs, rest) = history-simulates hs (happen t h w) in
      (es ++ fs, rest ∙ ap (λ s. run s fs) first ∙ sym (run-append es fs (view w)))
