-- ===== src/Exec/CvQueue/Conservation.antt =====
-- The values that a `cv_queue` has accepted, delivered and discarded, and those it holds.
use mathlib.Core.List.{Perm, perm_middle, perm_append_singleton}
use mathlib.Core.List.Perm
use yk_util.Base.{ℕ, ◌≡◌, sym, ◌∙◌, List, [], ◌∷◌, ◌++◌, append_assoc, append-nil, arith, inl, inr}
use yk_util.Base.Int.{ℤ}
use yk_util.Exec.CvQueue.Flags.{Traits}
use yk_util.Exec.CvQueue.{CvQueue, set_capacity, close, open_again, clear}
use yk_util.Exec.CvQueue.Run.{
  Call, pushes, pops, closes, opens, clears, sets_capacity, History, step, run, start, after,
}
use yk_util.Exec.CvQueue.Branches.{Takes, push_wait_cases, pop_wait_cases}

module _ {A : Type 0} where
  abbrev pub held : List A → List A → List A → List A
  held delivered discarded buf = delivered ++ (discarded ++ buf)

  -- Every accepted value is in exactly one place.
  abbrev pub Kept : History A → Type 0
  Kept h = Perm h.accepted (held h.delivered h.discarded h.queue.buf)

  held-push : (d s buf : List A) (x : A) → held d s (buf ++ x ∷ []) ≡ held d s buf ++ x ∷ []
  held-push d s buf x = simp append_assoc

  held-take :
      (t : Traits) (d s buf : List A) (x : A) (rest : List A)
      → Takes t buf x rest
      → Perm (held d s buf) (held (d ++ x ∷ []) s rest)
  held-take t d s buf x rest took = Perm.trans (taken took) (Perm.symm moved)
    where
      taken : Takes t buf x rest → Perm (held d s buf) (x ∷ held d s rest)
      taken (inl (_, e)) =
          rw (e, ← append_assoc d s (x ∷ rest), ← append_assoc d s rest) (perm_middle (d ++ s) rest)
      taken (inr (_, e)) = rw (e, held-push d s rest x) (perm_append_singleton x (held d s rest))

      moved : Perm (held (d ++ x ∷ []) s rest) (x ∷ held d s rest)
      moved = rw append_assoc (perm_middle d (s ++ rest))

  pub set_capacity-buf :
      (m : ℕ) (c : ℤ) (q : CvQueue A) → (after q (set_capacity m c q)).buf ≡ q.buf
  unfolding set_capacity
  set_capacity-buf m c q = ground arith

  pub step-Kept : (t : Traits) (m : ℕ) (h : History A) (c : Call A) → Kept h → Kept (step t m h c)
  unfolding step close open_again clear
  step-Kept t m h (pushes x) k = elim (push_wait_cases t h.queue x) [
    | inl (_, _, o, b) ↦ rw (o, b) k
    | inr (inl (_, e)) ↦ rw e k
    | inr (inr (_, _, o, b)) ↦
        rw (o, b, held-push h.delivered h.discarded h.queue.buf x) (Perm.append_right (x ∷ []) k)
  ]
  step-Kept t m h pops k = elim (pop_wait_cases t h.queue) [
    | inl (_, e, o, b) ↦ rw (o, b ∙ sym e) k
    | inr (inl (_, e)) ↦ rw e k
    | inr (inr (_, (x, rest, took, o, b))) ↦
        rw (o, b) (Perm.trans k (held-take t _ _ _ x rest took))
  ]
  step-Kept t m h closes k = k
  step-Kept t m h opens k = k
  step-Kept t m h clears k = rw (append-nil (h.discarded ++ h.queue.buf)) k
  step-Kept t m h (sets_capacity c) k = rw (set_capacity-buf m c h.queue) k

  pub run-Kept :
      (t : Traits) (m : ℕ) (h : History A) (cs : List (Call A)) → Kept h → Kept (run t m h cs)
  unfolding run
  run-Kept t m h [] k = k
  run-Kept t m h (c ∷ cs) k = run-Kept t m (step t m h c) cs (step-Kept t m h c k)

  pub start-Kept : (capacity : ℕ) → Kept (start capacity)
  unfolding start
  start-Kept capacity = Perm.refl []

  -- In every history of calls from a new cv_queue of any kind, the values accepted by push_wait
  -- are, up to order and with multiplicity, exactly those delivered by pop_wait, discarded by
  -- clear, or still in the buffer.
  pub conservation :
      (t : Traits) (m capacity : ℕ) (cs : List (Call A))
      → Perm (run t m (start capacity) cs).accepted (
          held
            (run t m (start capacity) cs).delivered
            (run t m (start capacity) cs).discarded
            (run t m (start capacity) cs).queue.buf)
  conservation t m capacity cs = run-Kept t m (start capacity) cs (start-Kept capacity)
