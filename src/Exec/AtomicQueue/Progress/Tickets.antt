-- ===== src/Exec/AtomicQueue/Progress/Tickets.antt =====
-- A ticket that has been taken is held by a thread until its turn is over.
use native.Mathlib.Nat.{mod-eq_of_lt}
use native.Mathlib.Decide.{dec_lt}
use yk_util.Base.{
  ℕ, zero, suc, ◌+◌, ◌*◌, ◌≤◌, ◌<◌, ◌≡◌, ◌≢◌, ◌%◌, refl, sym, ap, subst, true, none, some, ◌==◌,
  arith, ==_iff, ==_refl, ==_false, if-elim, ◌∙◌, Option-cases, inl, inr, ◌⊎◌, Bool-cases,
}
use yk_util.Exec.AtomicQueue.{
  idx, turn, update, Memory, Answer, refused, empty, pushed, delivered, Call, push, try_push, pop,
  try_pop, Pc, idle, pushing, try_push_at, try_push_cas, try_push_again, constructing, publishing,
  popping, try_pop_at, try_pop_cas, try_pop_again, extracting, destroying, releasing, take_head,
  take_tail, construct, destroy, store_turn, extract, may_push, may_pop, start, advance,
}
use yk_util.Exec.AtomicQueue.Slots.{turn-le}
use yk_util.Exec.AtomicQueue.Invariant.{ticket, now, Fits, Inv}

module _ {A : Type 0} (cap : ℕ) (m : Memory A) where
  -- how many tickets of a side have been taken
  abbrev pub taken : ℕ → ℕ
  taken zero = m.head
  taken (suc zero) = m.tail
  taken (suc (suc d)) = 0

  abbrev pub Held : (ℕ → Pc A) → Type 0
  Held pc =
      (d k : ℕ)
      → k < taken d
      → (turn cap k * 2 + 1 + d ≤ now cap m k) ⊎ ((i : ℕ) × (ticket (pc i) ≡ some (d, k)))

module _ {A : Type 0} (cap : ℕ) (m : Memory A) (pc : ℕ → Pc A) (held : Held cap m pc) (i : ℕ) where
  at_own : (p : Pc A) → update pc i p i ≡ p
  at_own p = rw (==_refl i) refl

  at_other : (p : Pc A) (j : ℕ) → j ≢ i → update pc i p j ≡ pc j
  at_other p j ne = rw (==_false j i ne) refl

  pub put-Held :
      (m' : Memory A) (p' : Pc A)
      → ((k : ℕ) → now cap m k ≤ now cap m' k)
      → ((d k : ℕ) → k < taken cap m' d → (k < taken cap m d) ⊎ (ticket p' ≡ some (d, k)))
      → ((d k : ℕ)
          → ticket (pc i) ≡ some (d, k)
          → (ticket p' ≡ some (d, k)) ⊎ (turn cap k * 2 + 1 + d ≤ now cap m' k))
      → Held cap m' (update pc i p')
  put-Held m' p' mono new released d k l = elim (new d k l) [
    | inr e ↦ inr (i, ap ticket (at_own p') ∙ e)
    | inl old ↦ elim (held d k old) [
      | inl n ↦ let g = mono k in inl (omega arith)
      | inr (j, e) ↦ elim (Bool-cases (j == i)) [
        | inl q ↦ elim (released d k (ap (λ j. ticket (pc j)) (sym ((==_iff j i).0 q)) ∙ e)) [
          | inl t ↦ inr (i, ap ticket (at_own p') ∙ t)
          | inr n ↦ inl n
        ]
        | inr q ↦ inr (j, ap ticket (at_other p' j (λ r. ground (arith, r, q))) ∙ e)
      ]
    ]
  ]

module _ {A : Type 0} (cap size_mod n : ℕ) (m : Memory A) (pc : ℕ → Pc A) (inv : Inv cap m n pc)
    (held : Held cap m pc) (i : ℕ) (room : 2 * n + 4 ≤ size_mod) where
  abbrev Keeps : Memory A × Pc A → Type 0
  Keeps r = Held cap r.0 (update pc i r.1)

  -- The counters and the turns are left alone, and the ticket is kept.
  stay :
      (p p' : Pc A)
      → pc i ≡ p
      → ((d k : ℕ) → ticket p ≡ some (d, k) → ticket p' ≡ some (d, k))
      → Held cap m (update pc i p')
  stay p p' e t =
      put-Held cap m pc held i m p' (λ k. omega arith) (λ d k l. inl l)
        (λ d k q. inl (t d k (ap ticket (sym e) ∙ q)))

  take_head_move :
      (v : A) (p p' : Pc A)
      → pc i ≡ p
      → ticket p ≡ none
      → ticket p' ≡ some (0, m.head)
      → Held cap (take_head size_mod v m) (update pc i p')
  unfolding take_head
  take_head_move v p p' e f t =
      put-Held cap m pc held i (take_head size_mod v m) p' (λ k. omega arith) (λ d k l. fresh d k l)
        (λ d k q. absurd (let r = sym q ∙ ap ticket e ∙ f in cc))
    where
      small : (m.head + 1) % size_mod ≡ m.head + 1
      small = mod-eq_of_lt (omega (arith, inv.shared.small))

      fresh :
          (d k : ℕ)
          → k < taken cap (take_head size_mod v m) d
          → (k < taken cap m d) ⊎ (ticket p' ≡ some (d, k))
      fresh zero k l = elim (dec_lt k m.head) [
        | yes h ↦ inl h
        | no h ↦
            let q : k ≡ m.head = omega (arith, small) in inr (t ∙ ap (λ k. some (0, k)) (sym q))
      ]
      fresh (suc zero) k l = inl l
      fresh (suc (suc d)) k l = inl l

  take_tail_move :
      (p p' : Pc A)
      → pc i ≡ p
      → ticket p ≡ none
      → ticket p' ≡ some (1, m.tail)
      → Held cap (take_tail size_mod m) (update pc i p')
  unfolding take_tail
  take_tail_move p p' e f t =
      put-Held cap m pc held i (take_tail size_mod m) p' (λ k. omega arith) (λ d k l. fresh d k l)
        (λ d k q. absurd (let r = sym q ∙ ap ticket e ∙ f in cc))
    where
      small : (m.tail + 1) % size_mod ≡ m.tail + 1
      small = mod-eq_of_lt (omega (arith, inv.shared.small))

      fresh :
          (d k : ℕ)
          → k < taken cap (take_tail size_mod m) d
          → (k < taken cap m d) ⊎ (ticket p' ≡ some (d, k))
      fresh zero k l = inl l
      fresh (suc zero) k l = elim (dec_lt k m.tail) [
        | yes h ↦ inl h
        | no h ↦
            let q : k ≡ m.tail = omega (arith, small) in inr (t ∙ ap (λ k. some (1, k)) (sym q))
      ]
      fresh (suc (suc d)) k l = inl l

  -- The thread with a ticket ends the turn.
  store_move :
      (p : Pc A) (a : Answer A) (d k : ℕ)
      → pc i ≡ p
      → ticket p ≡ some (d, k)
      → now cap m k ≡ turn cap k * 2 + d
      → turn cap k * 2 + 1 + d < size_mod
      → Held cap (store_turn cap size_mod k (turn cap k * 2 + 1 + d) m) (update pc i (idle a))
  unfolding store_turn
  store_move p a d k e t n b =
      let q : (turn cap k * 2 + 1 + d) % size_mod ≡ turn cap k * 2 + 1 + d = mod-eq_of_lt b in
      put-Held cap m pc held i (store_turn cap size_mod k (turn cap k * 2 + 1 + d) m) (idle a)
        (λ k'. ground (arith, q, n)) (λ d k l. inl l)
        (λ d' k' h.
          let r : some (d', k') ≡ some (d, k) = sym h ∙ ap ticket e ∙ t in
          inr (ground (arith, r, q)))

  pub start-Held : (c : Call A) (a : Answer A) → pc i ≡ idle a → Keeps (start size_mod c m)
  unfolding start
  start-Held (push v) a e = take_head_move v (idle a) (pushing m.head v) e refl refl
  start-Held (try_push v) a e = stay (idle a) (try_push_at m.head v) e (λ d k q. cc)
  start-Held pop a e = take_tail_move (idle a) (popping m.tail) e refl refl
  start-Held try_pop a e = stay (idle a) (try_pop_at m.tail) e (λ d k q. cc)

  here : (p : Pc A) → pc i ≡ p → Fits cap m p
  here p e = subst (Fits cap m) e (inv.fits i)

  extract-Held : (k : ℕ) → pc i ≡ extracting k → Keeps (extract cap k m)
  unfolding extract
  extract-Held k e =
      let f = here (extracting k) e in
      elim (Option-cases (m.storage (idx cap k))) [
        | inl q ↦
            let before : k < m.head = ground (arith, inv.shared.to_push k, f.1) in
            absurd (ground (arith, inv.shared.issued k before, f.2, q))
        | inr (v, q) ↦
            subst
              (λ o. Keeps (elim o as (λ o. Memory A × Pc A) [
                | none ↦ (record m { fault = true }, idle empty)
                | some v ↦ (record m { popped = update m.popped k (some v) }, destroying k v)
              ]))
              (sym q)
              (put-Held cap m pc held i (record m { popped = update m.popped k (some v) })
                (destroying k v) (λ k. omega arith) (λ d k l. inl l)
                (λ d k' h. inl (ap ticket (sym e) ∙ h)))
      ]

  pub advance-Held : (p : Pc A) → pc i ≡ p → Keeps (advance cap size_mod p m)
  unfolding advance construct destroy
  advance-Held (idle a) e = stay (idle a) (idle a) e (λ d k q. q)
  advance-Held (pushing k v) e =
      if-elim Keeps (may_push cap k m) _ _
        (λ b. stay (pushing k v) (constructing k v) e (λ d k q. q))
        (λ b. stay (pushing k v) (pushing k v) e (λ d k q. q))
  advance-Held (try_push_at h v) e =
      if-elim Keeps (may_push cap h m) _ _
        (λ b. stay (try_push_at h v) (try_push_cas h v) e (λ d k q. cc))
        (λ b. stay (try_push_at h v) (try_push_again h v) e (λ d k q. cc))
  advance-Held (try_push_cas h v) e =
      if-elim Keeps (m.head == h) _ _
        (λ b.
          let q = (==_iff m.head h).0 b in
          take_head_move v (try_push_cas h v) (constructing h v) e refl
            (ap (λ k. some (0, k)) (sym q)))
        (λ b. stay (try_push_cas h v) (try_push_at m.head v) e (λ d k q. cc))
  advance-Held (try_push_again h v) e =
      if-elim Keeps (m.head == h) _ _
        (λ b. stay (try_push_again h v) (idle refused) e (λ d k q. cc))
        (λ b. stay (try_push_again h v) (try_push_at m.head v) e (λ d k q. cc))
  advance-Held (constructing k v) e =
      put-Held cap m pc held i (construct cap k v m) (publishing k) (λ k. omega arith)
        (λ d k l. inl l) (λ d k' h. inl (ap ticket (sym e) ∙ h))
  advance-Held (publishing k) e =
      let f = here (publishing k) e in
      let b : turn cap k * 2 + 1 + 0 < size_mod =
        omega (arith, f.0, turn-le cap k, inv.shared.small) in
      let z : turn cap k * 2 + 1 + 0 ≡ turn cap k * 2 + 1 = omega arith in
      subst (λ t. Held cap (store_turn cap size_mod k t m) (update pc i (idle pushed))) z
        (store_move (publishing k) pushed 0 k e refl (omega (arith, f.1)) b)
  advance-Held (popping k) e =
      if-elim Keeps (may_pop cap k m) _ _ (λ b. stay (popping k) (extracting k) e (λ d k q. q))
        (λ b. stay (popping k) (popping k) e (λ d k q. q))
  advance-Held (try_pop_at h) e =
      if-elim Keeps (may_pop cap h m) _ _ (λ b. stay (try_pop_at h) (try_pop_cas h) e (λ d k q. cc))
        (λ b. stay (try_pop_at h) (try_pop_again h) e (λ d k q. cc))
  advance-Held (try_pop_cas h) e =
      if-elim Keeps (m.tail == h) _ _
        (λ b.
          let q = (==_iff m.tail h).0 b in
          take_tail_move (try_pop_cas h) (extracting h) e refl (ap (λ k. some (1, k)) (sym q)))
        (λ b. stay (try_pop_cas h) (try_pop_at m.tail) e (λ d k q. cc))
  advance-Held (try_pop_again h) e =
      if-elim Keeps (m.tail == h) _ _ (λ b. stay (try_pop_again h) (idle empty) e (λ d k q. cc))
        (λ b. stay (try_pop_again h) (try_pop_at m.tail) e (λ d k q. cc))
  advance-Held (extracting k) e = extract-Held k e
  advance-Held (destroying k v) e =
      put-Held cap m pc held i (destroy cap k m) (releasing k v) (λ k. omega arith) (λ d k l. inl l)
        (λ d k' h. inl (ap ticket (sym e) ∙ h))
  advance-Held (releasing k v) e =
      let f = here (releasing k v) e in
      let b : turn cap k * 2 + 1 + 1 < size_mod =
        omega (arith, f.0, turn-le cap k, inv.shared.small) in
      let z : turn cap k * 2 + 1 + 1 ≡ turn cap k * 2 + 2 = omega arith in
      subst (λ t. Held cap (store_turn cap size_mod k t m) (update pc i (idle (delivered v)))) z
        (store_move (releasing k v) (delivered v) 1 k e refl f.1 b)
