-- ===== src/Exec/AtomicQueue/Progress.antt =====
-- A thread waits only for another that can go on, or because the queue is full or empty.
pub mod Tickets
use yk_util.Base.{
  ℕ, zero, suc, ◌+◌, ◌-◌, ◌*◌, ◌≤◌, ◌<◌, ◌≡◌, refl, ap, false, List, [], ◌∷◌, some, length, arith,
  if-elim, inl, inr, ◌==◌, if◌then◌else◌,
}
use native.Mathlib.Decide.{dec_lt}
use yk_util.Exec.AtomicQueue.{
  turn, Memory, Pc, idle, pushing, popping, System, init, Event, calls, moves, is_idle, step, run,
  create, none_yet, may_push, may_pop,
}
use yk_util.Exec.AtomicQueue.Slots.{idx-sub, turn-sub, turn-first}
use yk_util.Exec.AtomicQueue.Invariant.{Fits, Inv, now, ticket}
use yk_util.Exec.AtomicQueue.Safety.{init-Inv, is_idle-eq, step-Inv, reached}
use Tickets.{Held, start-Held, advance-Held}

module _ {A : Type 0} (cap : ℕ) (m : Memory A) where
  -- A thread that is between two calls, or waits in the loop of `push` or `pop`.
  abbrev pub Rests : Pc A → Type 0
  Rests (idle a) = Unit {0}
  Rests (pushing k v) = may_push cap k m ≡ false
  Rests (popping k) = may_pop cap k m ≡ false
  Rests _ = ⊥

  push_taken : (p : Pc A) (k : ℕ) → Fits cap m p → ticket p ≡ some (0, k) → k < m.head
  push_taken (idle a) k f e = cc
  push_taken p k f e = ground (arith, f, e)

  pop_taken :
      (p : Pc A) (d k : ℕ) → Fits cap m p → ticket p ≡ some (suc d, k) → (k < m.tail) × (d ≡ 0)
  pop_taken (idle a) d k f e = cc
  pop_taken p d k f e = ground (arith, f, e)

  -- It has not come to its turn.
  early :
      (p : Pc A) (d k : ℕ)
      → Rests p
      → Fits cap m p
      → ticket p ≡ some (d, k)
      → now cap m k < turn cap k * 2 + d
  early (idle a) d k r f e = cc
  early (pushing k v) d k' r f e = ground (arith, f, e)
  early (popping k) d k' r f e = ground (arith, f, e)
  early p d k r f e = absurd r

init-Held : (A : Type 0) (cap : ℕ) → Held cap (create {A = A}) (λ i. idle none_yet)
init-Held A cap zero k l = absurd (omega arith)
init-Held A cap (suc zero) k l = absurd (omega arith)
init-Held A cap (suc (suc d)) k l = absurd (omega arith)

module _ {A : Type 0} (cap size_mod : ℕ) where
  step-Held :
      (n : ℕ) (e : Event A) (s : System A)
      → 2 * n + 4 ≤ size_mod
      → Inv cap s.mem n s.pc
      → Held cap s.mem s.pc
      → Held cap (step cap size_mod e s).mem (step cap size_mod e s).pc
  unfolding step
  step-Held n (calls i c) s b v h =
      if-elim {A = System A} (λ s. Held cap s.mem s.pc) (is_idle (s.pc i)) _ _
        (λ e.
          let (a, q) = is_idle-eq cap size_mod (s.pc i) e in
          start-Held cap size_mod n s.mem s.pc v h i b c a q)
        (λ e. h)
  step-Held n (moves i) s b v h = advance-Held cap size_mod n s.mem s.pc v h i b (s.pc i) refl

  run-Held :
      (es : List (Event A)) (n : ℕ) (s : System A)
      → 2 * (n + length es) + 2 ≤ size_mod
      → Inv cap s.mem n s.pc
      → Held cap s.mem s.pc
      → Held cap (run cap size_mod es s).mem (run cap size_mod es s).pc
  unfolding run
  run-Held [] n s b v h = h
  run-Held (e ∷ es) n s b v h =
      run-Held es (suc n) (step cap size_mod e s) (omega arith)
        (step-Inv cap size_mod n e s (omega arith) v) (step-Held n e s (omega arith) v h)

  module _ (n : ℕ) (m : Memory A) (pc : ℕ → Pc A) (v : Inv cap m n pc) (h : Held cap m pc)
      (r : (i : ℕ) → Rests cap m (pc i)) (c : 0 < cap) where
    late : (d k i : ℕ) → ticket (pc i) ≡ some (d, k) → now cap m k < turn cap k * 2 + d
    late d k i e = early cap m (pc i) d k (r i) (v.fits i) e

    -- When all rest, the pushes that had room are over: a push waits for the pop of the round before,
    -- and that for its push.
    no_push_left :
        (fuel k : ℕ) → k < fuel → k < m.head → k < m.tail + cap → turn cap k * 2 + 1 ≤ now cap m k
    no_push_left zero k f l b = absurd (omega arith)
    no_push_left (suc fuel) k f l b = elim (h 0 k l) [
      | inl done ↦ omega arith
      | inr (i, e) ↦
          let early = late 0 k i e in
          let after : cap ≤ k = ground (arith, turn-first cap k) in
          let same : now cap m (k - cap) ≡ now cap m k = ap m.turns (idx-sub cap k after) in
          let round = turn-sub cap k c after in
          elim (h 1 (k - cap) (omega arith)) [
            | inl done ↦ absurd (omega (arith, early, same, round))
            | inr (j, e') ↦ absurd (
                omega (
                  arith,
                  late 1 (k - cap) j e',
                  no_push_left fuel (k - cap) (omega arith) (omega arith) (omega arith),
                ))
          ]
    ]

    blocked :
        (i d k : ℕ) → ticket (pc i) ≡ some (d, k) → (if d == 0 then m.tail + cap else m.head) ≤ k
    blocked i zero k e = elim (dec_lt k (m.tail + cap)) [
      | no l ↦ omega arith
      | yes l ↦ absurd (
          omega (
            arith,
            late 0 k i e,
            no_push_left (suc k) k (omega arith) (push_taken cap m (pc i) k (v.fits i) e) l,
          ))
    ]
    blocked i (suc d) k e = elim (dec_lt k m.head) [
      | no l ↦ ground arith
      | yes l ↦
          let (t, d') = pop_taken cap m (pc i) d k (v.fits i) e in
          absurd (
            omega (arith, late (suc d) k i e, no_push_left (suc k) k (omega arith) l (omega arith)))
    ]

  module _ (es : List (Event A)) (short : 2 * length es + 2 ≤ size_mod) where
    pub reached-Held : Held cap (run cap size_mod es init).mem (run cap size_mod es init).pc
    reached-Held =
        run-Held es 0 init (omega (arith, short)) (init-Inv cap size_mod) (init-Held A cap)

    -- When every thread is between two calls or in the waiting loop of push or pop with the turn
    -- of its slot not come, each waiting push has a ticket that is at least the number of pops
    -- begun plus the capacity, and each waiting pop one that is at least the number of pushes
    -- begun: nobody waits while the queue has room or a value for it. This holds, for a positive
    -- capacity, in every run of any number of threads over a store of any capacity with so few
    -- events that twice their number and two is at most the number of values of std::size_t.
    pub waits_for_room :
        0 < cap
        → ((i : ℕ) → Rests cap (run cap size_mod es init).mem ((run cap size_mod es init).pc i))
        → (i d k : ℕ) → ticket ((run cap size_mod es init).pc i) ≡ some (d, k)
        → (if d == 0
            then (run cap size_mod es init).mem.tail + cap
            else (run cap size_mod es init).mem.head)
          ≤ k
    waits_for_room c r =
        blocked (length es) _ _ (reached cap size_mod es short)
          (run-Held es 0 init (omega (arith, short)) (init-Inv cap size_mod) (init-Held A cap)) r c
