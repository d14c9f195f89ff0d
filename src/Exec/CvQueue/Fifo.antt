-- ===== src/Exec/CvQueue/Fifo.antt =====
-- The order of delivery of a `cv_queue`, under `queue_based_push_pop` and without.
use yk_util.Base.{
  ℕ, ◌≡◌, refl, sym, ap, ◌∙◌, true, false, List, [], ◌∷◌, ◌++◌, append_assoc, some, arith, inl, inr,
}
use yk_util.Exec.CvQueue.Flags.{Traits}
use yk_util.Exec.CvQueue.{CvQueue, returned, pop_back, push_wait, pop_wait, close, open_again}
use yk_util.Exec.CvQueue.Run.{
  Call, pushes, pops, closes, opens, clears, sets_capacity, History, step, run, start,
}
use yk_util.Exec.CvQueue.Branches.{Takes, push_wait_cases, pop_wait_cases, pop_back-append}
use yk_util.Exec.CvQueue.Conservation.{set_capacity-buf}

module _ {A : Type 0} where
  abbrev pub NoClear : List (Call A) → Type 0
  NoClear [] = Unit {0}
  NoClear (clears ∷ cs) = ⊥
  NoClear (c ∷ cs) = NoClear cs

  -- What went in comes out in the same order.
  abbrev pub InOrder : History A → Type 0
  InOrder h = h.delivered ++ h.queue.buf ≡ h.accepted

  queue-Takes :
      (t : Traits) (buf : List A) (x : A) (rest : List A)
      → t.is_queue_based_push_pop ≡ true
      → Takes t buf x rest
      → buf ≡ x ∷ rest
  queue-Takes t buf x rest e took = ground arith

  module _ (t : Traits) (m : ℕ) (e : t.is_queue_based_push_pop ≡ true) where
    pushes-InOrder : (h : History A) (x : A) → InOrder h → InOrder (step t m h (pushes x))
    unfolding step
    pushes-InOrder h x k = elim (push_wait_cases t h.queue x) [
      | inl (_, _, o, b) ↦ rw (o, b) k
      | inr (inl (_, r)) ↦ rw r k
      | inr (inr (_, _, o, b)) ↦
          rw (o, b) (sym (append_assoc h.delivered h.queue.buf (x ∷ [])) ∙ ap (λ l. l ++ x ∷ []) k)
    ]

    pops-InOrder : (h : History A) → InOrder h → InOrder (step t m h pops)
    unfolding step
    pops-InOrder h k = elim (pop_wait_cases t h.queue) [
      | inl (_, b, o, b') ↦ rw (o, b' ∙ sym b) k
      | inr (inl (_, r)) ↦ rw r k
      | inr (inr (_, (x, rest, took, o, b))) ↦
          rw (o, b)
            (append_assoc h.delivered (x ∷ []) rest
              ∙ ap (λ l. h.delivered ++ l) (sym (queue-Takes t h.queue.buf x rest e took))
              ∙ k)
    ]

    pub run-InOrder :
        (h : History A) (cs : List (Call A)) → NoClear cs → InOrder h → InOrder (run t m h cs)
    unfolding run step close open_again
    run-InOrder h [] n k = k
    run-InOrder h (pushes x ∷ cs) n k =
        run-InOrder (step t m h (pushes x)) cs n (pushes-InOrder h x k)
    run-InOrder h (pops ∷ cs) n k = run-InOrder (step t m h pops) cs n (pops-InOrder h k)
    run-InOrder h (closes ∷ cs) n k = run-InOrder (step t m h closes) cs n k
    run-InOrder h (opens ∷ cs) n k = run-InOrder (step t m h opens) cs n k
    run-InOrder h (clears ∷ cs) n k = absurd n
    run-InOrder h (sets_capacity c ∷ cs) n k =
        run-InOrder (step t m h (sets_capacity c)) cs n (rw (set_capacity-buf m c h.queue) k)

  -- Under queue_based_push_pop, in every history without clear, the delivered values followed by
  -- those still in the buffer are the accepted values in the order of their acceptance.
  pub fifo :
      (t : Traits) (m capacity : ℕ) (cs : List (Call A))
      → t.is_queue_based_push_pop ≡ true
      → NoClear cs
      → (run t m (start capacity) cs).delivered ++ (run t m (start capacity) cs).queue.buf
        ≡ (run t m (start capacity) cs).accepted
  unfolding start
  fifo t m capacity cs e n = run-InOrder t m e (start capacity) cs n refl

  last-inj : (xs ys : List A) (x y : A) → xs ++ x ∷ [] ≡ ys ++ y ∷ [] → (x ≡ y) × (xs ≡ ys)
  last-inj xs ys x y e = ground (arith, pop_back-append xs x, pop_back-append ys y, ap pop_back e)

  last-ne-nil : (xs : List A) (x : A) → xs ++ x ∷ [] ≡ [] → ⊥
  last-ne-nil [] x e = cc
  last-ne-nil (y ∷ xs) x e = cc

  pop_wait-last :
      (t : Traits) (q : CvQueue A) (xs : List A) (x : A)
      → t.is_queue_based_push_pop ≡ false
      → q.closed ≡ false
      → q.buf ≡ xs ++ x ∷ []
      → ((pop_wait t q).1 ≡ returned (some x)) × ((pop_wait t q).0.buf ≡ xs)
  pop_wait-last t q xs x e c b = elim (pop_wait_cases t q) [
    | inl (_, n, _, _) ↦ absurd (last-ne-nil xs x (sym b ∙ n))
    | inr (inl (c', _)) ↦ cc
    | inr (inr (_, (y, rest, inl (e', _), _, _))) ↦ cc
    | inr (inr (_, (y, rest, inr (_, s), o, b'))) ↦
        let (p, r) = last-inj rest xs y x (sym s ∙ b) in (o ∙ ap (λ z. returned (some z)) p, b' ∙ r)
  ]

  push_wait-closed : (t : Traits) (q : CvQueue A) (x : A) → (push_wait t q x).0.closed ≡ q.closed
  unfolding push_wait
  push_wait-closed t q x = ground arith

  -- Without queue_based_push_pop, a pop_wait right after an accepted push_wait delivers the
  -- value pushed and leaves the buffer as it was before.
  pub lifo :
      (t : Traits) (q : CvQueue A) (x : A)
      → t.is_queue_based_push_pop ≡ false
      → (push_wait t q x).1 ≡ returned true
      → ((pop_wait t (push_wait t q x).0).1 ≡ returned (some x))
        × ((pop_wait t (push_wait t q x).0).0.buf ≡ q.buf)
  lifo t q x e h = elim (push_wait_cases t q x) [
    | inl (_, _, o, _) ↦ cc
    | inr (inl (_, r)) ↦ cc
    | inr (inr (c, _, _, b)) ↦ pop_wait-last t _ q.buf x e (push_wait-closed t q x ∙ c) b
  ]
