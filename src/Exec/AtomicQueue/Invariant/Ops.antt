-- ===== src/Exec/AtomicQueue/Invariant/Ops.antt =====
-- What an access of one thread does to the state of another.
use native.Mathlib.Nat.{mod-eq_of_lt}
use yk_util.Base.{ℕ, ◌+◌, ◌*◌, ◌<◌, ◌≡◌, ◌≢◌, false, some, arith, ◌%◌}
use yk_util.Exec.AtomicQueue.{
  turn, Memory, Pc, idle, pushing, try_push_cas, constructing, publishing, popping, try_pop_cas,
  extracting, destroying, releasing, live, take_head, take_tail, construct, destroy, store_turn,
}
use yk_util.Exec.AtomicQueue.Slots.{ticket_inj}
use yk_util.Exec.AtomicQueue.Invariant.Defs.{ticket, now, cell, Fits, Shared}

-- The ticket, or the value of a counter, that a thread has.
abbrev number : {A : Type 0} → Pc A → ℕ
number (pushing k v) = k
number (try_push_cas h v) = h
number (constructing k v) = k
number (publishing k) = k
number (popping k) = k
number (try_pop_cas h) = h
number (extracting k) = k
number (destroying k v) = k
number (releasing k v) = k
number _ = 0

module _ {A : Type 0} (cap : ℕ) (m : Memory A) where
  -- The threads other than the one that constructs or destroys have other slots, or wait.
  pub construct-Fits :
      (k : ℕ) (v : A) (p : Pc A)
      → now cap m k ≡ turn cap k * 2
      → ticket p ≢ some (0, k)
      → Fits cap m p
      → Fits cap (construct cap k v m) p
  unfolding construct
  construct-Fits k v (idle x) t a f = tt
  construct-Fits k v p t a f = ground (arith, ticket_inj cap k (number p))

  pub destroy-Fits :
      (k : ℕ) (p : Pc A)
      → now cap m k ≡ turn cap k * 2 + 1
      → ticket p ≢ some (1, k)
      → Fits cap m p
      → Fits cap (destroy cap k m) p
  unfolding destroy
  destroy-Fits k (idle x) t a f = tt
  destroy-Fits k p t a f = ground (arith, ticket_inj cap k (number p))

  -- The end of a push, when the slot has the object.
  pub store_turn_pushed-Fits :
      (size_mod k : ℕ) (p : Pc A)
      → now cap m k ≡ turn cap k * 2
      → turn cap k * 2 + 1 < size_mod
      → cell cap m k ≡ m.pushed k
      → ticket p ≢ some (0, k)
      → Fits cap m p
      → Fits cap (store_turn cap size_mod k (turn cap k * 2 + 1) m) p
  unfolding store_turn
  store_turn_pushed-Fits size_mod k (idle x) t b c a f = tt
  store_turn_pushed-Fits size_mod k p t b c a f =
      let e : (turn cap k * 2 + 1) % size_mod ≡ turn cap k * 2 + 1 = mod-eq_of_lt b in
      ground (arith, e, ticket_inj cap k (number p))

  -- The end of a pop, when the slot is empty.
  pub store_turn_popped-Fits :
      (size_mod k : ℕ) (p : Pc A)
      → now cap m k ≡ turn cap k * 2 + 1
      → turn cap k * 2 + 2 < size_mod
      → live (cell cap m k) ≡ false
      → ticket p ≢ some (1, k)
      → Fits cap m p
      → Fits cap (store_turn cap size_mod k (turn cap k * 2 + 2) m) p
  unfolding store_turn
  store_turn_popped-Fits size_mod k (idle x) t b c a f = tt
  store_turn_popped-Fits size_mod k p t b c a f =
      let e : (turn cap k * 2 + 2) % size_mod ≡ turn cap k * 2 + 2 = mod-eq_of_lt b in
      ground (arith, e, ticket_inj cap k (number p))

  -- A ticket that nobody has had is taken.
  pub take_head-Fits :
      (n size_mod : ℕ) (v : A) (p : Pc A)
      → m.head + 1 < size_mod
      → Shared cap m n
      → Fits cap m p
      → Fits cap (take_head size_mod v m) p
  unfolding take_head
  take_head-Fits n size_mod v (idle x) b h f = tt
  take_head-Fits n size_mod v p b h f =
      let e : (m.head + 1) % size_mod ≡ m.head + 1 = mod-eq_of_lt b in
      ground (arith, e, h.to_push m.head (omega arith))

  pub take_tail-Fits :
      (size_mod : ℕ) (p : Pc A)
      → m.tail + 1 < size_mod
      → Fits cap m p
      → Fits cap (take_tail size_mod m) p
  unfolding take_tail
  take_tail-Fits size_mod (idle x) b f = tt
  take_tail-Fits size_mod p b f =
      let e : (m.tail + 1) % size_mod ≡ m.tail + 1 = mod-eq_of_lt b in ground (arith, e)
