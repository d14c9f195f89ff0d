-- ===== src/Exec/AtomicQueue/Ends.antt =====
-- A loop over try_push or try_pop that is asked to stop ends, with no other thread in its way.
use yk_util.Base.{
  ℕ, zero, suc, ◌-◌, ◌≤◌, Bool, true, false, List, [], ◌∷◌, ◌≡◌, ◌==◌, if◌then◌else◌, arith,
}
use yk_util.Exec.AtomicQueue.{
  Memory, Pc, idle, pushing, try_push_at, try_push_cas, try_push_again, constructing, publishing,
  popping, try_pop_at, try_pop_cas, try_pop_again, extracting, destroying, releasing, Call, advance,
  extract, is_idle, step, run, take_head, take_tail, construct, destroy, store_turn,
}
use yk_util.Exec.AtomicQueue.Cancelable.{
  at_test, in_attempt, returned, Cancelable, Input, own, loop_step, loop_run,
}

-- How many steps an attempt has left if no other thread takes one, and the loop after it.
abbrev left_at : {A : Type 0} → Memory A → Pc A → ℕ
left_at m (idle a) = 2
left_at m (publishing k) = 3
left_at m (releasing k v) = 3
left_at m (constructing k v) = 4
left_at m (destroying k v) = 4
left_at m (extracting k) = 5
left_at m (try_push_again h v) = if m.head == h then 3 else 9
left_at m (try_pop_again h) = if m.tail == h then 3 else 9
left_at m (try_push_cas h v) = if m.head == h then 6 else 9
left_at m (try_pop_cas h) = if m.tail == h then 6 else 9
left_at m (try_push_at h v) = if m.head == h then 7 else 10
left_at m (try_pop_at h) = if m.tail == h then 7 else 10
left_at m _ = 0

-- A thread that is not in push or pop, which may wait for others.
abbrev pub is_trying : {A : Type 0} → Pc A → Bool
is_trying (pushing k v) = false
is_trying (popping k) = false
is_trying _ = true

module _ {A : Type 0} (cap size_mod i : ℕ) (attempt : Call A) where
  abbrev left : Cancelable A → ℕ
  left c = elim c.loop [
    | at_test ↦ 1
    | in_attempt ↦ left_at c.system.mem (c.system.pc i)
    | returned b ↦ 0
  ]

  advance-left :
      (p : Pc A) (m : Memory A)
      → is_trying p ≡ true
      → is_idle p ≡ false
      → (left_at (advance cap size_mod p m).0 (advance cap size_mod p m).1 ≤ left_at m p - 1)
        × (is_trying (advance cap size_mod p m).1 ≡ true)
  unfolding advance take_head take_tail construct destroy store_turn extract
  advance-left p m h k = ground (arith, h, k)

  own-left :
      (c : Cancelable A)
      → c.stop ≡ true
      → is_trying (c.system.pc i) ≡ true
      → (left (loop_step cap size_mod i attempt c own) ≤ left c - 1)
        × ((loop_step cap size_mod i attempt c own).stop ≡ true)
        × (is_trying ((loop_step cap size_mod i attempt c own).system.pc i) ≡ true)
  unfolding loop_step run step
  own-left c s h = ground (arith, s, h, advance-left (c.system.pc i) c.system.mem)

  abbrev pub alone : ℕ → List (Input A)
  alone zero = []
  alone (suc n) = own ∷ alone n

  alone-left :
      (c : Cancelable A) (n : ℕ)
      → c.stop ≡ true
      → is_trying (c.system.pc i) ≡ true
      → (left (loop_run cap size_mod i attempt c (alone n)) ≤ left c - n)
        × (is_trying ((loop_run cap size_mod i attempt c (alone n)).system.pc i) ≡ true)
  unfolding loop_run
  alone-left c zero s h = (omega arith, h)
  alone-left c (suc n) s h =
      let (less, stays, trying) = own-left c s h in
      let (rest, tries) = alone-left (loop_step cap size_mod i attempt c own) n stays trying in
      (omega (arith, less, rest), tries)

  left-bound : (c : Cancelable A) → left c ≤ 10
  left-bound c = ground arith

  abbrev pub has_returned : Cancelable A → Bool
  has_returned c = elim c.loop [ returned b ↦ true | _ ↦ false ]

  left-returned :
      (c : Cancelable A) → is_trying (c.system.pc i) ≡ true → left c ≡ 0 → has_returned c ≡ true
  left-returned c h e = ground (arith, h, e)

  -- Once a stop is requested, the loop of cancelable_bounded_push or cancelable_pop has returned
  -- after ten steps of its thread without a step of another, wherever it stands, if the thread
  -- is not in push or pop.
  pub stopped_loop_returns :
      (c : Cancelable A)
      → c.stop ≡ true
      → is_trying (c.system.pc i) ≡ true
      → has_returned (loop_run cap size_mod i attempt c (alone 10)) ≡ true
  stopped_loop_returns c s h =
      let (rest, tries) = alone-left c 10 s h in
      left-returned (loop_run cap size_mod i attempt c (alone 10)) tries
        (omega (arith, rest, left-bound c))
