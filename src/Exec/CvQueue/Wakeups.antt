-- ===== src/Exec/CvQueue/Wakeups.antt =====
-- The sleepers on the condition variables of a `cv_queue`, and the predicates they wait for.
use yk_util.Base.{
  ℕ, ◌≤◌, ◌<◌, ◌≡◌, refl, true, false, List, [], ◌∷◌, none, some, arith, length, length-append, ◌⊎◌,
  inl, inr, Bool-cases,
}
use yk_util.Base.Int.{ℤ, pos, negsuc}
use yk_util.Exec.CvQueue.Flags.{Traits, is_single_producer, is_single_consumer}
use yk_util.Exec.CvQueue.{
  CvQueue, returned, set_capacity, do_push, push, pop_notify, pop, push_wait, pop_wait, close,
  open_again, clear,
}
use yk_util.Exec.CvQueue.Run.{
  Call, pushes, pops, closes, opens, clears, sets_capacity, History, step, run, start, after,
}
use yk_util.Exec.CvQueue.Branches.{Takes, Takes-length, do_pop-some}

module _ {A : Type 0} where
  -- Whoever sleeps has a reason to, and a queue with one producer (consumer) has one such thread.
  pub record Awake (t : Traits) (q : CvQueue A) : Type 0 where
    pub producers : 0 < q.not_full → (q.capacity ≤ length q.buf) × (q.closed ≡ false)
    pub consumers : 0 < q.not_empty → (q.buf ≡ []) × (q.closed ≡ false)
    pub one_producer : is_single_producer t ≡ true → q.not_full ≤ 1
    pub one_consumer : is_single_consumer t ≡ true → q.not_empty ≤ 1

  -- The thread discipline: the only producer (consumer) calls only while it is not asleep. The
  -- capacity is not raised while a producer sleeps.
  abbrev pub Allowed : Traits → CvQueue A → Call A → Type 0
  Allowed t q (pushes x) = is_single_producer t ≡ true → q.not_full ≡ 0
  Allowed t q pops = is_single_consumer t ≡ true → q.not_empty ≡ 0
  Allowed t q (sets_capacity (pos n)) = (n ≤ q.capacity) ⊎ (q.not_full ≡ 0)
  Allowed t q _ = Unit {0}

  push_wait-Awake :
      (t : Traits) (q : CvQueue A) (x : A)
      → Awake t q
      → (is_single_producer t ≡ true → q.not_full ≡ 0)
      → Awake t (push_wait t q x).0
  unfolding push_wait push do_push
  push_wait-Awake t q x a h = record {
    producers = ground (arith, length-append q.buf (x ∷ []));
    consumers = ground arith;
    one_producer = ground arith;
    one_consumer = ground arith;
  }

  pop-Awake :
      (t : Traits) (q : CvQueue A) (x : A) (rest : List A)
      → Awake t q
      → Takes t q.buf x rest
      → Awake t (record q { buf = rest; not_full = pop_notify t q })
  unfolding pop_notify
  pop-Awake t q x rest a took = record {
    producers = ground (arith, Takes-length t q.buf x rest took);
    consumers = λ h. absurd (ground (arith, a.consumers h, Takes-length t q.buf x rest took));
    one_producer = ground arith;
    one_consumer = a.one_consumer;
  }

  pub pop_wait-closed :
      (t : Traits) (q : CvQueue A) → q.closed ≡ true → pop_wait t q ≡ (q, returned none)
  unfolding pop_wait
  pop_wait-closed t q c = ground arith

  -- A pop from an open queue that holds something.
  pub pop_wait-taken :
      (t : Traits) (q : CvQueue A) (y : A) (ys : List A)
      → q.buf ≡ y ∷ ys
      → q.closed ≡ false
      → (x : A) × (rest : List A) × Takes t q.buf x rest
        × (pop_wait t q ≡ (record q { buf = rest; not_full = pop_notify t q }, returned (some x)))
  unfolding pop_wait pop
  pop_wait-taken t q y ys e c =
      let (x, rest, p, took) = do_pop-some t y ys in (x, rest, rw e took, ground (arith, p))

  pop_wait-Awake :
      (t : Traits) (q : CvQueue A) (buf : List A)
      → q.buf ≡ buf
      → Awake t q
      → (is_single_consumer t ≡ true → q.not_empty ≡ 0)
      → Awake t (pop_wait t q).0
  unfolding pop_wait
  pop_wait-Awake t q [] e a h = record {
    producers = ground arith;
    consumers = ground arith;
    one_producer = ground arith;
    one_consumer = ground arith;
  }
  pop_wait-Awake t q (y ∷ ys) e a h = elim (Bool-cases q.closed) [
    | inl c ↦ rw (pop_wait-closed t q c) a
    | inr c ↦
        let (x, rest, took, r) = pop_wait-taken t q y ys e c in rw r (pop-Awake t q x rest a took)
  ]

  set_capacity-Awake :
      (t : Traits) (m : ℕ) (c : ℤ) (q : CvQueue A)
      → Awake t q
      → Allowed t q (sets_capacity c)
      → Awake t (after q (set_capacity m c q))
  unfolding set_capacity
  set_capacity-Awake t m (pos n) q a h = ground arith
  set_capacity-Awake t m (negsuc n) q a h = a

  step-Awake :
      (t : Traits) (m : ℕ) (h : History A) (c : Call A)
      → Awake t h.queue
      → Allowed t h.queue c
      → Awake t (step t m h c).queue
  unfolding step close open_again clear
  step-Awake t m h (pushes x) a d = push_wait-Awake t h.queue x a d
  step-Awake t m h pops a d = pop_wait-Awake t h.queue h.queue.buf refl a d
  step-Awake t m h closes a d = ground arith
  step-Awake t m h opens a d = ground arith
  step-Awake t m h clears a d = ground arith
  step-Awake t m h (sets_capacity c) a d = set_capacity-Awake t m c h.queue a d

  -- The discipline along a history.
  abbrev pub Disciplined : Traits → ℕ → History A → List (Call A) → Type 0
  Disciplined t m h [] = Unit {0}
  Disciplined t m h (c ∷ cs) = Allowed t h.queue c × Disciplined t m (step t m h c) cs

  run-Awake :
      (t : Traits) (m : ℕ) (h : History A) (cs : List (Call A))
      → Awake t h.queue
      → Disciplined t m h cs
      → Awake t (run t m h cs).queue
  unfolding run
  run-Awake t m h [] a d = a
  run-Awake t m h (c ∷ cs) a d = run-Awake t m (step t m h c) cs (step-Awake t m h c a d.0) d.1

  -- For every kind of cv_queue and every history of calls from a new queue in which the only
  -- producer or consumer of a single-producer or single-consumer queue calls only while it is
  -- not asleep, and the capacity is not raised while a producer sleeps: a producer sleeps only
  -- while the queue is full and open, and a consumer only while it is empty and open.
  pub no_lost_wakeup :
      (t : Traits) (m capacity : ℕ) (cs : List (Call A))
      → Disciplined t m (start capacity) cs
      → Awake t (run t m (start capacity) cs).queue
  unfolding start
  no_lost_wakeup t m capacity cs d = run-Awake t m (start capacity) cs (ground arith) d
