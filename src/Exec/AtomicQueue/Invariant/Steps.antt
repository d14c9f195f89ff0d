-- ===== src/Exec/AtomicQueue/Invariant/Steps.antt =====
-- The next access of a thread, whatever it is, keeps the invariant.
use native.Mathlib.Nat.{mod-eq_of_lt}
use yk_util.Base.{
  ℕ, suc, ◌+◌, ◌*◌, ◌≤◌, ◌<◌, ◌≡◌, ◌≢◌, ◌%◌, refl, sym, ap, subst, true, none, some, ◌==◌, arith,
  ==_iff, if-elim, ◌∙◌, Option-cases, inl, inr,
}
use yk_util.Exec.AtomicQueue.{
  idx, turn, update, Memory, Answer, refused, empty, pushed, delivered, Call, push, try_push, pop,
  try_pop, Pc, idle, pushing, try_push_at, try_push_cas, try_push_again, constructing, publishing,
  popping, try_pop_at, try_pop_cas, try_pop_again, extracting, destroying, releasing, take_head,
  take_tail, construct, destroy, store_turn, extract, may_push, may_pop, start, advance,
}
use yk_util.Exec.AtomicQueue.Slots.{turn-le}
use yk_util.Exec.AtomicQueue.Invariant.Defs.{ticket, now, Fits, Shared, Inv}
use yk_util.Exec.AtomicQueue.Invariant.Ops.{
  construct-Fits, destroy-Fits, store_turn_pushed-Fits, store_turn_popped-Fits, take_head-Fits,
  take_tail-Fits,
}
use yk_util.Exec.AtomicQueue.Invariant.Whole.{
  later-Shared, construct-Shared, destroy-Shared, store_turn_pushed-Shared,
  store_turn_popped-Shared, take_head-Shared, take_tail-Shared, extract-Shared,
}
use yk_util.Exec.AtomicQueue.Invariant.Moves.{put-Inv, stay-Inv, other, fresh_head, fresh_tail}

module _ {A : Type 0} (cap size_mod n : ℕ) (m : Memory A) (pc : ℕ → Pc A) (inv : Inv cap m n pc)
    (i : ℕ) (room : 2 * n + 4 ≤ size_mod) where
  take_head_move :
      (v : A) (p' : Pc A)
      → ticket p' ≡ some (0, m.head)
      → Fits cap (take_head size_mod v m) p'
      → Inv cap (take_head size_mod v m) (suc n) (update pc i p')
  take_head_move v p' t f =
      let small : m.head + 1 < size_mod = omega (arith, inv.shared.small) in
      put-Inv cap n m pc inv i (take_head size_mod v m) p'
        (take_head-Shared cap n m inv.shared size_mod v small) f
        (λ j ne. take_head-Fits cap m n size_mod v (pc j) small inv.shared (inv.fits j))
        (λ d k e j ne e'. fresh_head cap m (pc j) (inv.fits j) (e' ∙ sym e ∙ t))

  take_tail_move :
      (p' : Pc A)
      → ticket p' ≡ some (1, m.tail)
      → Fits cap (take_tail size_mod m) p'
      → Inv cap (take_tail size_mod m) (suc n) (update pc i p')
  take_tail_move p' t f =
      let small : m.tail + 1 < size_mod = omega (arith, inv.shared.small) in
      put-Inv cap n m pc inv i (take_tail size_mod m) p'
        (take_tail-Shared cap n m inv.shared size_mod small) f
        (λ j ne. take_tail-Fits cap m size_mod (pc j) small (inv.fits j))
        (λ d k e j ne e'. fresh_tail cap m (pc j) (inv.fits j) (e' ∙ sym e ∙ t))

  stay :
      (p p' : Pc A)
      → pc i ≡ p
      → Fits cap m p'
      → ((d k : ℕ) → ticket p' ≡ some (d, k) → ticket p ≡ some (d, k))
      → Inv cap m (suc n) (update pc i p')
  stay p p' e f t = stay-Inv cap n m pc inv i p' f (λ d k q. ap ticket e ∙ t d k q)

  here : (p : Pc A) → pc i ≡ p → Fits cap m p
  here p e = subst (Fits cap m) e (inv.fits i)

  -- A thread with the ticket of `p` changes memory by an access to the slot of its ticket.
  slot_move :
      (p p' : Pc A) (m' : Memory A) (d k : ℕ)
      → pc i ≡ p
      → ticket p ≡ some (d, k)
      → ((d k : ℕ) → ticket p' ≡ some (d, k) → ticket p ≡ some (d, k))
      → Shared cap m' n
      → Fits cap m' p'
      → ((q : Pc A) → ticket q ≢ some (d, k) → Fits cap m q → Fits cap m' q)
      → Inv cap m' (suc n) (update pc i p')
  slot_move p p' m' d k e t kept s f others =
      put-Inv cap n m pc inv i m' p' (later-Shared cap n m' s) f
        (λ j ne. others (pc j) (other cap n m pc inv i d k (ap ticket e ∙ t) j ne) (inv.fits j))
        (λ d' k' e'. other cap n m pc inv i d' k' (ap ticket e ∙ kept d' k' e'))

  abbrev Keeps : Memory A × Pc A → Type 0
  Keeps r = Inv cap r.0 (suc n) (update pc i r.1)

  -- a free ticket, and what its slot is like
  pushing-Fits : (v : A) → Fits cap (take_head size_mod v m) (pushing m.head v)
  unfolding take_head
  pushing-Fits v =
      let e : (m.head + 1) % size_mod ≡ m.head + 1 =
        mod-eq_of_lt (omega (arith, inv.shared.small)) in
      ground (arith, e, inv.shared.to_push m.head (omega arith))

  popping-Fits : Fits cap (take_tail size_mod m) (popping m.tail)
  unfolding take_tail
  popping-Fits =
      let e : (m.tail + 1) % size_mod ≡ m.tail + 1 =
        mod-eq_of_lt (omega (arith, inv.shared.small)) in
      ground (arith, e, inv.shared.to_pop m.tail (omega arith))

  pub start-Inv : (c : Call A) (a : Answer A) → pc i ≡ idle a → Keeps (start size_mod c m)
  unfolding start
  start-Inv (push v) a e = take_head_move v (pushing m.head v) refl (pushing-Fits v)
  start-Inv (try_push v) a e = stay (idle a) (try_push_at m.head v) e tt (λ d k q. cc)
  start-Inv pop a e = take_tail_move (popping m.tail) refl popping-Fits
  start-Inv try_pop a e = stay (idle a) (try_pop_at m.tail) e tt (λ d k q. cc)

  -- The exchange succeeds at the value whose slot was seen ready.
  won_push-Fits :
      (h : ℕ) (v : A)
      → m.head ≡ h
      → turn cap h * 2 ≤ now cap m h
      → Fits cap (take_head size_mod v m) (constructing h v)
  unfolding take_head
  won_push-Fits h v q f =
      let e : (m.head + 1) % size_mod ≡ m.head + 1 =
        mod-eq_of_lt (omega (arith, inv.shared.small)) in
      ground (arith, e, inv.shared.to_push h (omega arith))

  won_pop-Fits :
      (h : ℕ)
      → m.tail ≡ h
      → turn cap h * 2 + 1 ≤ now cap m h
      → Fits cap (take_tail size_mod m) (extracting h)
  unfolding take_tail
  won_pop-Fits h q f =
      let e : (m.tail + 1) % size_mod ≡ m.tail + 1 =
        mod-eq_of_lt (omega (arith, inv.shared.small)) in
      ground (arith, e, inv.shared.to_pop h (omega arith))

  -- A slot whose turn it is to be popped has been taken for a push.
  pushed_before : (k : ℕ) → now cap m k ≡ turn cap k * 2 + 1 → k < m.head
  pushed_before k t = ground (arith, inv.shared.to_push k)

  extract-Inv : (k : ℕ) → pc i ≡ extracting k → Keeps (extract cap k m)
  unfolding extract
  extract-Inv k e =
      let f = here (extracting k) e in
      let before = pushed_before k f.1 in
      let whole = inv.shared.issued k before in
      elim (Option-cases (m.storage (idx cap k))) [
        | inl q ↦ absurd (ground (arith, whole, f.2, q))
        | inr (v, q) ↦
            subst
              (λ o. Keeps (elim o as (λ o. Memory A × Pc A) [
                | none ↦ (record m { fault = true }, idle empty)
                | some v ↦ (record m { popped = update m.popped k (some v) }, destroying k v)
              ]))
              (sym q)
              (slot_move (extracting k) (destroying k v)
                (record m { popped = update m.popped k (some v) }) 1 k e refl (λ d k' t. t)
                (extract-Shared cap n m inv.shared k v before (sym f.2 ∙ q)) (f.0, f.1, q)
                (λ r a g. same_Fits k v r g))
      ]
    where
      same_Fits :
          (k : ℕ) (v : A) (r : Pc A)
          → Fits cap m r
          → Fits cap (record m { popped = update m.popped k (some v) }) r
      same_Fits k v (idle a) g = tt
      same_Fits k v r g = g

  built_Fits :
      (k : ℕ) (v : A)
      → Fits cap m (constructing k v)
      → Fits cap (construct cap k v m) (publishing k)
  unfolding construct
  built_Fits k v f = ground arith

  emptied_Fits :
      (k : ℕ) (v : A) → Fits cap m (destroying k v) → Fits cap (destroy cap k m) (releasing k v)
  unfolding destroy
  emptied_Fits k v f = ground arith

  pub advance-Inv : (p : Pc A) → pc i ≡ p → Keeps (advance cap size_mod p m)
  unfolding advance
  advance-Inv (idle a) e = stay (idle a) (idle a) e tt (λ d k q. q)
  advance-Inv (pushing k v) e =
      let f = here (pushing k v) e in
      if-elim Keeps (may_push cap k m) _ _
        (λ b. stay (pushing k v) (constructing k v) e (ground (arith, f, b)) (λ d k q. q))
        (λ b. stay (pushing k v) (pushing k v) e f (λ d k q. q))
  advance-Inv (try_push_at h v) e =
      if-elim Keeps (may_push cap h m) _ _
        (λ b. stay (try_push_at h v) (try_push_cas h v) e (ground (arith, b)) (λ d k q. cc))
        (λ b. stay (try_push_at h v) (try_push_again h v) e tt (λ d k q. cc))
  advance-Inv (try_push_cas h v) e =
      if-elim Keeps (m.head == h) _ _
        (λ b.
          let q = (==_iff m.head h).0 b in
          take_head_move v (constructing h v) (ap (λ k. some (0, k)) (sym q))
            (won_push-Fits h v q (here (try_push_cas h v) e)))
        (λ b. stay (try_push_cas h v) (try_push_at m.head v) e tt (λ d k q. cc))
  advance-Inv (try_push_again h v) e =
      if-elim Keeps (m.head == h) _ _
        (λ b. stay (try_push_again h v) (idle refused) e tt (λ d k q. cc))
        (λ b. stay (try_push_again h v) (try_push_at m.head v) e tt (λ d k q. cc))
  advance-Inv (constructing k v) e =
      let f = here (constructing k v) e in
      slot_move (constructing k v) (publishing k) (construct cap k v m) 0 k e refl (λ d k' t. t)
        (construct-Shared cap n m inv.shared k v f.0 f.1 f.3) (built_Fits k v f)
        (λ q. construct-Fits cap m k v q f.1)
  advance-Inv (publishing k) e =
      let f = here (publishing k) e in
      let b : turn cap k * 2 + 1 < size_mod = omega (arith, f.0, turn-le cap k, inv.shared.small) in
      slot_move (publishing k) (idle pushed) (store_turn cap size_mod k (turn cap k * 2 + 1) m) 0 k
        e refl (λ d k' t. cc) (store_turn_pushed-Shared cap n m inv.shared size_mod k f.0 f.1 b f.2)
        tt (λ q. store_turn_pushed-Fits cap m size_mod k q f.1 b f.2)
  advance-Inv (popping k) e =
      let f = here (popping k) e in
      if-elim Keeps (may_pop cap k m) _ _
        (λ b. stay (popping k) (extracting k) e (ground (arith, f, b)) (λ d k q. q))
        (λ b. stay (popping k) (popping k) e f (λ d k q. q))
  advance-Inv (try_pop_at h) e =
      if-elim Keeps (may_pop cap h m) _ _
        (λ b. stay (try_pop_at h) (try_pop_cas h) e (ground (arith, b)) (λ d k q. cc))
        (λ b. stay (try_pop_at h) (try_pop_again h) e tt (λ d k q. cc))
  advance-Inv (try_pop_cas h) e =
      if-elim Keeps (m.tail == h) _ _
        (λ b.
          let q = (==_iff m.tail h).0 b in
          take_tail_move (extracting h) (ap (λ k. some (1, k)) (sym q))
            (won_pop-Fits h q (here (try_pop_cas h) e)))
        (λ b. stay (try_pop_cas h) (try_pop_at m.tail) e tt (λ d k q. cc))
  advance-Inv (try_pop_again h) e =
      if-elim Keeps (m.tail == h) _ _ (λ b. stay (try_pop_again h) (idle empty) e tt (λ d k q. cc))
        (λ b. stay (try_pop_again h) (try_pop_at m.tail) e tt (λ d k q. cc))
  advance-Inv (extracting k) e = extract-Inv k e
  advance-Inv (destroying k v) e =
      let f = here (destroying k v) e in
      slot_move (destroying k v) (releasing k v) (destroy cap k m) 1 k e refl (λ d k' t. t)
        (destroy-Shared cap n m inv.shared k v f.0 f.1 f.2) (emptied_Fits k v f)
        (λ q. destroy-Fits cap m k q f.1)
  advance-Inv (releasing k v) e =
      let f = here (releasing k v) e in
      let before = pushed_before k f.1 in
      let b : turn cap k * 2 + 2 < size_mod = omega (arith, f.0, turn-le cap k, inv.shared.small) in
      slot_move (releasing k v) (idle (delivered v))
        (store_turn cap size_mod k (turn cap k * 2 + 2) m) 1 k e refl (λ d k' t. cc)
        (store_turn_popped-Shared cap n m inv.shared size_mod k f.0 f.1 b f.2) tt
        (λ q. store_turn_popped-Fits cap m size_mod k q f.1 b f.2)
