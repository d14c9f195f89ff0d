-- ===== src/Exec/CvQueue/Stranded.antt =====
-- The sleepers when `set_capacity` makes room.
use yk_util.Base.{
  ℕ, zero, suc, ◌+◌, ◌≤◌, ◌<◌, ◌≡◌, refl, sym, ap, subst, true, false, List, [], ◌∷◌, arith, length,
}
use yk_util.Base.Int.{pos}
use yk_util.Exec.CvQueue.Flags.{Traits, is_single_producer, is_single_consumer}
use yk_util.Exec.CvQueue.{CvQueue, set_capacity, pop_notify, pop_wait}
use yk_util.Exec.CvQueue.Run.{Call, pops, sets_capacity, History, step, run, after}
use yk_util.Exec.CvQueue.Branches.{Takes-length}
use yk_util.Exec.CvQueue.Wakeups.{pop_wait-taken}

module _ {A : Type 0} where
  -- the consumer's calls: `n` pops
  abbrev pub pop_times : ℕ → List (Call A)
  pop_times zero = []
  pop_times (suc n) = pops ∷ pop_times n

  -- Producer and consumer are asleep, on an open queue with an empty buffer and a capacity for more.
  pub record Deadlocked (q : CvQueue A) : Type 0 where
    pub open_still : q.closed ≡ false
    pub empty : q.buf ≡ []
    pub room : 0 < q.capacity
    pub producer : 0 < q.not_full
    pub consumer : 0 < q.not_empty

  -- A pop below the capacity keeps the sleeping producer asleep.
  pop_keeps_asleep :
      (t : Traits) (q : CvQueue A) (y : A) (ys : List A)
      → is_single_producer t ≡ true
      → is_single_consumer t ≡ true
      → q.buf ≡ y ∷ ys
      → length q.buf < q.capacity
      → q.closed ≡ false
      → (length (pop_wait t q).0.buf + 1 ≡ length q.buf)
        × ((pop_wait t q).0.capacity ≡ q.capacity)
        × ((pop_wait t q).0.closed ≡ false)
        × ((pop_wait t q).0.not_full ≡ q.not_full)
  unfolding pop_notify
  pop_keeps_asleep t q y ys p c e room o =
      let (x, rest, took, r) = pop_wait-taken t q y ys e o in
      rw r (ground (arith, Takes-length t q.buf x rest took))

  drain :
      (t : Traits) (m : ℕ) (k : ℕ) (h : History A) (buf : List A)
      → is_single_producer t ≡ true
      → is_single_consumer t ≡ true
      → h.queue.buf ≡ buf
      → length buf ≡ k
      → k < h.queue.capacity
      → h.queue.closed ≡ false
      → 0 < h.queue.not_full
      → Deadlocked (run t m h (pop_times (suc k))).queue
  unfolding run step
  drain t m zero h [] p c e l room o s = unfold pop_wait in ground arith
  drain t m zero h (y ∷ ys) p c e l room o s = absurd (omega arith)
  drain t m (suc k) h [] p c e l room o s = absurd (omega arith)
  drain t m (suc k) h (y ∷ ys) p c e l room o s =
      let kept = pop_keeps_asleep t h.queue y ys p c e (rw e (omega arith)) o in
      let size : length h.queue.buf ≡ suc k = rw e l in
      drain t m k (step t m h pops) (pop_wait t h.queue).0.buf p c refl (omega arith) (omega arith)
        kept.2 (omega arith)

  set_capacity-fits :
      (m n : ℕ) (q : CvQueue A)
      → n ≤ m
      → after q (set_capacity m (pos n) q) ≡ record q { capacity = n }
  unfolding set_capacity
  set_capacity-fits m n q fits = ground arith

  -- If the producer of an open single-producer single-consumer queue sleeps and set_capacity
  -- makes room within max_size, then after one pop more than the buffer holds producer and
  -- consumer are both asleep, on an empty open queue with a positive capacity.
  pub set_capacity_strands :
      (t : Traits) (m n : ℕ) (h : History A)
      → is_single_producer t ≡ true
      → is_single_consumer t ≡ true
      → n ≤ m
      → length h.queue.buf < n
      → h.queue.closed ≡ false
      → 0 < h.queue.not_full
      → Deadlocked (run t m h (sets_capacity (pos n) ∷ pop_times (suc (length h.queue.buf)))).queue
  unfolding run step
  set_capacity_strands t m n h p c fits room o s =
      subst
        (λ (h' : History A). Deadlocked (run t m h' (pop_times (suc (length h.queue.buf)))).queue)
        (sym (ap (λ q. record h { queue = q }) (set_capacity-fits m n h.queue fits)))
        (drain t m (length h.queue.buf) (record h { queue = record h.queue { capacity = n } })
          h.queue.buf p c refl refl room o s)
