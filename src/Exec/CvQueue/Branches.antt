-- ===== src/Exec/CvQueue/Branches.antt =====
-- What a `cv_queue` promises about the values that go through it.
use yk_util.Base.{
  length-append, suc, ◌≤◌, ◌<◌, ◌≡◌, refl, ap, Bool-cases, true, false, List, [], ◌∷◌, ◌++◌, none,
  some, arith, length, ◌⊎◌, inl, inr,
}
use yk_util.Exec.CvQueue.Flags.{Traits}
use yk_util.Exec.CvQueue.{CvQueue, waits, returned, pop_back, do_push, do_pop, push_wait, pop_wait}

module _ {A : Type 0} where
  pub pop_back-append : (xs : List A) (x : A) → pop_back (xs ++ x ∷ []) ≡ some (x, xs)
  unfolding pop_back
  pop_back-append [] x = refl
  pop_back-append (y ∷ []) x = refl
  pop_back-append (y ∷ z ∷ xs) x = rw (pop_back-append (z ∷ xs) x, pop_back)

  abbrev pub PushCases : Traits → CvQueue A → A → Type 0
  PushCases t q x =
      ((q.closed ≡ false)
        × (q.capacity ≤ length q.buf)
        × ((push_wait t q x).1 ≡ waits)
        × ((push_wait t q x).0.buf ≡ q.buf))
      ⊎ ((q.closed ≡ true) × (push_wait t q x ≡ (q, returned false)))
      ⊎ ((q.closed ≡ false)
          × (length q.buf < q.capacity)
          × ((push_wait t q x).1 ≡ returned true)
          × ((push_wait t q x).0.buf ≡ q.buf ++ x ∷ []))

  -- push_wait sleeps and keeps the buffer exactly on an open queue at or above its capacity,
  -- returns false and changes nothing exactly on a closed one, and otherwise appends its value
  -- to the back of a buffer below the capacity and returns true.
  pub push_wait_cases : (t : Traits) (q : CvQueue A) (x : A) → PushCases t q x
  unfolding push_wait do_push
  push_wait_cases t q x = ground arith

  -- `do_pop` takes one value out of a buffer that holds one, from the front or from the back.
  abbrev pub Takes : Traits → List A → A → List A → Type 0
  Takes t buf x rest =
      ((t.is_queue_based_push_pop ≡ true) × (buf ≡ x ∷ rest))
      ⊎ ((t.is_queue_based_push_pop ≡ false) × (buf ≡ rest ++ x ∷ []))

  pub Takes-length :
      (t : Traits) (buf : List A) (x : A) (rest : List A)
      → Takes t buf x rest
      → length buf ≡ suc (length rest)
  Takes-length t buf x rest (inl (_, e)) = rw e
  Takes-length t buf x rest (inr (_, e)) = rw e (omega (arith, length-append rest (x ∷ [])))

  pop_back-some :
      (y : A) (ys : List A)
      → (x : A) × (rest : List A) × (pop_back (y ∷ ys) ≡ some (x, rest)) × (y ∷ ys ≡ rest ++ x ∷ [])
  unfolding pop_back
  pop_back-some y [] = (y, [], refl, refl)
  pop_back-some y (z ∷ ys) =
      let (x, rest, e, split) = pop_back-some z ys in
      (x, y ∷ rest, rw (e, pop_back), ap (◌∷◌ y) split)

  pub do_pop-some :
      (t : Traits) (y : A) (ys : List A)
      → (x : A) × (rest : List A) × (do_pop t (y ∷ ys) ≡ some (x, rest)) × Takes t (y ∷ ys) x rest
  unfolding do_pop
  do_pop-some t y ys = elim (Bool-cases t.is_queue_based_push_pop) [
    | inl e ↦ (y, ys, rw e, inl (e, refl))
    | inr e ↦ let (x, rest, p, split) = pop_back-some y ys in (x, rest, rw (e, p), inr (e, split))
  ]

  abbrev pub PopCases : Traits → CvQueue A → Type 0
  PopCases t q =
      ((q.closed ≡ false) × (q.buf ≡ []) × ((pop_wait t q).1 ≡ waits) × ((pop_wait t q).0.buf ≡ []))
      ⊎ ((q.closed ≡ true) × (pop_wait t q ≡ (q, returned none)))
      ⊎ ((q.closed ≡ false)
          × ((x : A) × (rest : List A) × Takes t q.buf x rest
              × ((pop_wait t q).1 ≡ returned (some x))
              × ((pop_wait t q).0.buf ≡ rest)))

  pop_wait_buf : (t : Traits) (q : CvQueue A) (buf : List A) → q.buf ≡ buf → PopCases t q
  unfolding pop_wait
  pop_wait_buf t q [] e = ground arith
  pop_wait_buf t q (y ∷ ys) e = elim (Bool-cases q.closed) [
    | inl c ↦ inr (inl (c, ground arith))
    | inr c ↦
        let (x, rest, p, took) = do_pop-some t y ys in
        inr (inr (c, (x, rest, rw e took, ground (arith, p), ground (arith, p))))
  ]

  -- pop_wait sleeps and keeps the buffer exactly on an open empty queue, returns false and
  -- changes nothing exactly on a closed one, and otherwise delivers the front value under
  -- queue_based_push_pop and the back value without, and keeps the other values in order; it
  -- never reads an empty buffer.
  pub pop_wait_cases : (t : Traits) (q : CvQueue A) → PopCases t q
  pop_wait_cases t q = pop_wait_buf t q q.buf refl
