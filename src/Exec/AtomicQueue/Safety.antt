-- ===== src/Exec/AtomicQueue/Safety.antt =====
-- What holds in every run of the queue that is too short for the counters to wrap around.
use yk_util.Base.{
  ℕ, suc, ◌+◌, ◌-◌, ◌*◌, ◌≤◌, ◌<◌, ◌≡◌, ◌%◌, refl, sym, ap, ◌∙◌, subst, true, false, List, [], ◌∷◌,
  Option, none, some, length, arith, if-elim,
}
use native.Mathlib.Decide.{dec_lt}
use native.Mathlib.Nat.{mod-eq_of_lt}
use yk_util.Exec.AtomicQueue.{
  idx, turn, Memory, Pc, idle, constructing, publishing, extracting, destroying, releasing, System,
  size, init, Event, calls, moves, is_idle, step, run, create, Answer, none_yet,
}
use yk_util.Exec.AtomicQueue.Slots.{ticket_inj, idx-lt, idx-sub, turn-sub}
use yk_util.Exec.AtomicQueue.Invariant.{Fits, Inv, now, ticket}
use yk_util.Exec.AtomicQueue.Invariant.Whole.{later-Shared}
use yk_util.Exec.AtomicQueue.Invariant.Steps.{start-Inv, advance-Inv}

-- The ticket of a thread that works on the storage of a slot, with its side.
abbrev pub work : {A : Type 0} → Pc A → Option (ℕ × ℕ)
work (constructing k v) = some (0, k)
work (publishing k) = some (0, k)
work (extracting k) = some (1, k)
work (destroying k v) = some (1, k)
work (releasing k v) = some (1, k)
work _ = none

module _ {A : Type 0} (cap size_mod : ℕ) where
  pub init-Inv : Inv cap (create {A = A}) 0 (λ i. idle none_yet)
  init-Inv = record {
    shared = record {
      small = (omega arith, omega arith);
      sound = refl;
      to_push = λ k h. (omega arith, ground arith);
      to_pop = λ k h. (omega arith, ground arith);
      issued = λ k h. absurd (omega arith);
      in_order = λ k v h. cc;
    };
    fits = λ i. tt;
    unique = λ i j d k e. cc;
  }

  pub is_idle-eq : (p : Pc A) → is_idle p ≡ true → (a : Answer A) × (p ≡ idle a)
  is_idle-eq (idle a) h = (a, refl)
  is_idle-eq p h = cc

  later-Inv : (n : ℕ) (s : System A) → Inv cap s.mem n s.pc → Inv cap s.mem (suc n) s.pc
  later-Inv n s v = record {
    shared = later-Shared cap n s.mem v.shared;
    fits = v.fits;
    unique = v.unique;
  }

  pub step-Inv :
      (n : ℕ) (e : Event A) (s : System A)
      → 2 * n + 4 ≤ size_mod
      → Inv cap s.mem n s.pc
      → Inv cap (step cap size_mod e s).mem (suc n) (step cap size_mod e s).pc
  unfolding step
  step-Inv n (calls i c) s b v =
      if-elim {A = System A} (λ s. Inv cap s.mem (suc n) s.pc) (is_idle (s.pc i)) _ _
        (λ e. let (a, q) = is_idle-eq (s.pc i) e in start-Inv cap size_mod n s.mem s.pc v i b c a q)
        (λ e. later-Inv n s v)
  step-Inv n (moves i) s b v = advance-Inv cap size_mod n s.mem s.pc v i b (s.pc i) refl

  run-Inv :
      (es : List (Event A)) (n : ℕ) (s : System A)
      → 2 * (n + length es) + 2 ≤ size_mod
      → Inv cap s.mem n s.pc
      → Inv cap (run cap size_mod es s).mem (n + length es) (run cap size_mod es s).pc
  unfolding run
  run-Inv [] n s b v = subst (λ k. Inv cap s.mem k s.pc) (omega arith) v
  run-Inv (e ∷ es) n s b v =
      let rest =
        run-Inv es (suc n) (step cap size_mod e s) (omega arith) (step-Inv n e s (omega arith) v) in
      subst
        (λ k.
          Inv cap (run cap size_mod es (step cap size_mod e s)).mem k
            (run cap size_mod es (step cap size_mod e s)).pc)
        (omega arith) rest

  -- A thread that works on a slot holds the ticket, and the turn of the slot is that of the ticket.
  work_has_turn :
      (n : ℕ) (m : Memory A) (p : Pc A) (d k : ℕ)
      → work p ≡ some (d, k)
      → Fits cap m p
      → (ticket p ≡ some (d, k)) × (d ≤ 1) × (now cap m k ≡ turn cap k * 2 + d)
  work_has_turn n m (idle a) d k e f = cc
  work_has_turn n m p d k e f = ground arith

  -- A slot comes to the turn of a push when the pop of the round before is over.
  turn_in_reach :
      (n : ℕ) (m : Memory A) (pc : ℕ → Pc A)
      → Inv cap m n pc
      → (i k : ℕ) → 0 < cap
      → work (pc i) ≡ some (0, k)
      → k < m.tail + cap
  turn_in_reach n m pc v i k c e = elim (dec_lt k (m.tail + cap)) [
    | yes l ↦ l
    | no l ↦
        let before : cap ≤ k = omega arith in
        let same : now cap m (k - cap) ≡ now cap m k = ap m.turns (idx-sub cap k before) in
        let w = (work_has_turn n m _ 0 k e (v.fits i)).2 in
        absurd (
          omega (arith, same, turn-sub cap k c before, (v.shared.to_pop (k - cap) (omega arith)).0))
  ]

  distance :
      (n : ℕ) (m : Memory A)
      → 2 * n + 2 ≤ size_mod
      → m.head ≤ n
      → m.tail ≤ n
      → size size_mod m ≡ (m.head - m.tail) + (m.tail - m.head)
  unfolding size
  distance n m b h t = elim (dec_lt m.head m.tail) [
    | yes l ↦
        let e : (m.head + size_mod - m.tail) % size_mod ≡ m.head + size_mod - m.tail =
          mod-eq_of_lt (omega arith) in
        grind (arith, e)
    | no l ↦
        let e : (m.head + size_mod - m.tail) % size_mod ≡ m.head - m.tail = grind arith in
        grind (arith, e)
  ]

  module _ (es : List (Event A)) (short : 2 * length es + 2 ≤ size_mod) where
    pub reached : Inv cap (run cap size_mod es init).mem (length es) (run cap size_mod es init).pc
    reached =
        subst (λ k. Inv cap (run cap size_mod es init).mem k (run cap size_mod es init).pc)
          (omega arith) (run-Inv es 0 init (omega (arith, short)) init-Inv)

    -- The pop with a ticket reads the value that the push with the same ticket was called with,
    -- so values are delivered in the order in which their pushes took tickets, in every run of
    -- any number of threads over a store of any capacity with so few events that twice their
    -- number and two is at most the number of values of std::size_t.
    pub pops_in_order :
        (k : ℕ) (v : A)
        → (run cap size_mod es init).mem.popped k ≡ some v
        → (run cap size_mod es init).mem.pushed k ≡ some v
    pops_in_order k v h = (reached.shared.in_order k v h).1

    -- No object is constructed over another one, and none is read or destroyed where there is
    -- none, in every run of any number of threads over a store of any capacity with so few
    -- events that twice their number and two is at most the number of values of std::size_t.
    pub storage_sound : (run cap size_mod es init).mem.fault ≡ false
    storage_sound = reached.shared.sound

    -- Two threads that work on the storage of one slot (construct, publish, extract, destroy or
    -- release it) are the same thread, in every run of any number of threads over a store of any
    -- capacity with so few events that twice their number and two is at most the number of
    -- values of std::size_t.
    pub exclusive :
        (i j d k d' k' : ℕ)
        → work ((run cap size_mod es init).pc i) ≡ some (d, k)
        → work ((run cap size_mod es init).pc j) ≡ some (d', k')
        → idx cap k ≡ idx cap k'
        → i ≡ j
    exclusive i j d k d' k' e e' q =
        let m = (run cap size_mod es init).mem in
        let (t, l, w) = work_has_turn 0 m _ d k e (reached.fits i) in
        let (t', l', w') = work_has_turn 0 m _ d' k' e' (reached.fits j) in
        let same : now cap m k ≡ now cap m k' = ap m.turns q in
        let dd : d' ≡ d = omega arith in
        let kk : k' ≡ k = sym (ticket_inj cap k k' q (omega arith)) in
        reached.unique i j d k t (t' ∙ cc)

    -- A thread that constructs or publishes an object uses a slot of the store, and its ticket
    -- is below the number of pops begun plus the capacity, in every run of any number of threads
    -- over a store of any capacity with so few events that twice their number and two is at most
    -- the number of values of std::size_t, when the capacity is positive.
    pub push_within_capacity :
        (i k : ℕ)
        → 0 < cap
        → work ((run cap size_mod es init).pc i) ≡ some (0, k)
        → (idx cap k < cap) × (k < (run cap size_mod es init).mem.tail + cap)
    push_within_capacity i k c e = (idx-lt cap k c, turn_in_reach (length es) _ _ reached i k c e)

    -- size() is the distance between the counts of the pushes and the pops that have taken a
    -- ticket, whichever is ahead, in every run of any number of threads over a store of any
    -- capacity with so few events that twice their number and two is at most the number of
    -- values of std::size_t.
    pub size-distance :
        size size_mod (run cap size_mod es init).mem
        ≡ ((run cap size_mod es init).mem.head - (run cap size_mod es init).mem.tail)
          + ((run cap size_mod es init).mem.tail - (run cap size_mod es init).mem.head)
    size-distance = distance (length es) _ short reached.shared.small.0 reached.shared.small.1
