-- ===== src/Exec/AtomicQueue/Attempts.antt =====
-- What the thread of a cancelable_bounded_push does to the queue: a push once or not at all.
pub mod Runs
use yk_util.Base.{
  ℕ, ◌+◌, ◌*◌, ◌%◌, Bool, true, false, ◌||◌, List, [], ◌∷◌, none, some, ◌≡◌, refl, sym, ap, subst,
  Bool-cases, ==_refl, inl, inr, ◌⊎◌, ◌==◌, if◌then◌else◌, if-elim, arith,
}
use yk_util.Exec.AtomicQueue.{
  update, idx, turn, Memory, pushed, refused, Pc, idle, try_push_at, try_push_cas, try_push_again,
  constructing, publishing, try_push, live, take_head, construct, store_turn, may_push, start,
  advance, System, Event, calls, moves, is_idle, step, run,
}
use yk_util.Exec.AtomicQueue.Cancelable.{
  Loop, at_test, in_attempt, returned, after_attempt, Cancelable, Input, own, other, stops,
  thread_of, loop_step, loop_run,
}
use yk_util.Exec.AtomicQueue.Attempts.Runs.{loop_events, loop_run-is_run}

-- How far a thread is with a value that it pushes: nothing done, a ticket claimed, the value in the
-- slot of the ticket, the slot handed over.
pub data Stage : Type 0 where
  looking : Stage
  claimed built : ℕ → Stage
  finished : Stage

abbrev pub stage_of : Bool → Stage
stage_of true = finished
stage_of false = looking

module _ {A : Type 0} (cap size_mod i : ℕ) (v : A) where
  -- What a step of the thread does to the memory, from one stage to the next.
  abbrev pub Effect : Stage → Stage → Memory A → Memory A → Type 0
  Effect looking looking m m' = m' ≡ m
  Effect looking (claimed k) m m' =
      (k ≡ m.head)
      × (m' ≡ record m { head = (m.head + 1) % size_mod; pushed = update m.pushed m.head (some v) })
  Effect (claimed k) (built l) m m' =
      (l ≡ k)
      × (m' ≡ record m {
        storage = update m.storage (idx cap k) (some v);
        fault = m.fault || live (m.storage (idx cap k));
      })
  Effect (built k) finished m m' =
      m' ≡ record m { turns = update m.turns (idx cap k) ((turn cap k * 2 + 1) % size_mod) }
  Effect finished finished m m' = m' ≡ m
  Effect _ _ m m' = ⊥

  -- The steps of the thread lead from one stage to another.
  abbrev pub Follows : Stage → Cancelable A → List (Input A) → Stage → Type 0
  Follows p c [] q = p ≡ q
  Follows p c (own ∷ xs) q =
      let c' = loop_step cap size_mod i (try_push v) c own in
      (p' : Stage) × Effect p p' c.system.mem c'.system.mem × Follows p' c' xs q
  Follows p c (other e ∷ xs) q = Follows p (loop_step cap size_mod i (try_push v) c (other e)) xs q
  Follows p c (stops ∷ xs) q = Follows p (loop_step cap size_mod i (try_push v) c stops) xs q

  -- Where a thread in try_push stands at each stage
  data Stands : Pc A → Stage → Type 0 where
    has_pushed : Stands (idle pushed) finished
    was_refused : Stands (idle refused) looking
    tests_turn : (h : ℕ) → Stands (try_push_at h v) looking
    exchanges : (h : ℕ) → Stands (try_push_cas h v) looking
    reads_again : (h : ℕ) → Stands (try_push_again h v) looking
    constructs : (k : ℕ) → Stands (constructing k v) (claimed k)
    publishes : (k : ℕ) → Stands (publishing k) (built k)

  abbrev At : Cancelable A → Stage → Type 0
  At c p = elim c.loop [
    | at_test ↦ (is_idle (c.system.pc i) ≡ true) × (p ≡ looking)
    | in_attempt ↦ Stands (c.system.pc i) p
    | returned b ↦ p ≡ stage_of b
  ]

  abbrev Next : Stage → Memory A → Memory A × Pc A → Type 0
  Next s m r = (s' : Stage) × Effect s s' m r.0 × Stands r.1 s'

  advance-Next :
      (p : Pc A) (s : Stage) (m : Memory A)
      → Stands p s
      → is_idle p ≡ false
      → Next s m (advance cap size_mod p m)
  unfolding advance construct store_turn take_head
  advance-Next p s m has_pushed d = cc
  advance-Next p s m was_refused d = cc
  advance-Next p s m (tests_turn h) d =
      if-elim (Next looking m) (may_push cap h m) (m, try_push_cas h v) (m, try_push_again h v)
        (λ b. (looking, refl, exchanges h)) (λ b. (looking, refl, reads_again h))
  advance-Next p s m (exchanges h) d =
      if-elim (Next looking m) (m.head == h) (take_head size_mod v m, constructing h v)
        (m, try_push_at m.head v) (λ b. (claimed h, (ground (arith, b), refl), constructs h))
        (λ b. (looking, refl, tests_turn m.head))
  advance-Next p s m (reads_again h) d =
      if-elim (Next looking m) (m.head == h) (m, idle refused) (m, try_push_at m.head v)
        (λ b. (looking, refl, was_refused)) (λ b. (looking, refl, tests_turn m.head))
  advance-Next p s m (constructs k) d = (built k, (refl, refl), publishes k)
  advance-Next p s m (publishes k) d = (finished, refl, has_pushed)

  abbrev Moved : Cancelable A → Stage → Type 0
  Moved c p =
      let c' = loop_step cap size_mod i (try_push v) c own in
      (p' : Stage) × Effect p p' c.system.mem c'.system.mem × At c' p'

  -- A return value of an attempt leaves the memory and the stage.
  answer-Stage :
      (q : Pc A) (p : Stage) (m : Memory A)
      → Stands q p
      → is_idle q ≡ true
      → Effect p p m m
        × (((after_attempt cap size_mod i (try_push v) q ≡ at_test) × (p ≡ looking))
            ⊎ ((after_attempt cap size_mod i (try_push v) q ≡ returned true) × (p ≡ finished)))
  answer-Stage q p m has_pushed d = (refl, inr (refl, refl))
  answer-Stage q p m was_refused d = (refl, inl (refl, refl))
  answer-Stage q p m (tests_turn h) d = cc
  answer-Stage q p m (exchanges h) d = cc
  answer-Stage q p m (reads_again h) d = cc
  answer-Stage q p m (constructs k) d = cc
  answer-Stage q p m (publishes k) d = cc

  busy-in_attempt :
      (q : Pc A) → is_idle q ≡ false → after_attempt cap size_mod i (try_push v) q ≡ in_attempt
  busy-in_attempt q d = ground (arith, d)

  called-pc :
      (s : System A)
      → is_idle (s.pc i) ≡ true
      → (step cap size_mod (calls i (try_push v)) s).pc i ≡ try_push_at s.mem.head v
  unfolding step start
  called-pc s d = ground (arith, d)

  system-idle :
      (s : System A) (b : Bool)
      → is_idle (s.pc i) ≡ true
      → (loop_step cap size_mod i
          (try_push v)
          (record { system = s; stop = b; loop = in_attempt })
          own).system
        ≡ s
  unfolding loop_step run
  system-idle s b d =
      ap
        (λ t.
          run cap size_mod
            (elim (if t then none else some (moves i)) [ none ↦ [] | some e ↦ e ∷ [] ]) s)
        d

  system-busy :
      (s : System A) (b : Bool)
      → is_idle (s.pc i) ≡ false
      → (loop_step cap size_mod i
          (try_push v)
          (record { system = s; stop = b; loop = in_attempt })
          own).system
        ≡ step cap size_mod (moves i) s
  unfolding loop_step run
  system-busy s b d =
      ap
        (λ t.
          run cap size_mod
            (elim (if t then none else some (moves i)) [ none ↦ [] | some e ↦ e ∷ [] ]) s)
        d

  own-At :
      (s : System A) (b : Bool) (l : Loop) (p : Stage)
      → At (record { system = s; stop = b; loop = l }) p
      → Moved (record { system = s; stop = b; loop = l }) p
  unfolding loop_step run step start
  own-At s true at_test p (d, e) =
      subst (Moved (record { system = s; stop = true; loop = at_test })) (sym e)
        (looking, refl, refl)
  own-At s false at_test p (d, e) =
      subst (Moved (record { system = s; stop = false; loop = at_test })) (sym e) (
        looking,
        ground (arith, d),
        subst (λ q. Stands q looking) (sym (called-pc s d)) (tests_turn s.mem.head),
      )
  own-At s b in_attempt p h = elim (Bool-cases (is_idle (s.pc i))) [
    | inl d ↦
        let (e, k) = answer-Stage (s.pc i) p s.mem h d in
        elim k [
          | inl (a, q) ↦ (p, rw (system-idle s b d) e, rw (system-idle s b d, a) (d, q))
          | inr (a, q) ↦ (p, rw (system-idle s b d) e, rw (a) q)
        ]
    | inr d ↦
        let (p', e, k) = advance-Next (s.pc i) p s.mem h d in
        (
          p',
          rw (system-busy s b d) e,
          rw (system-busy s b d, busy-in_attempt (s.pc i) d, ==_refl i) k,
        )
  ]
  own-At s b (returned true) p h =
      subst (Moved (record { system = s; stop = b; loop = returned true })) (sym h)
        (finished, refl, refl)
  own-At s b (returned false) p h =
      subst (Moved (record { system = s; stop = b; loop = returned false })) (sym h)
        (looking, refl, refl)

  other-same :
      (e : Event A) (s : System A)
      → (thread_of e == i) ≡ false
      → (step cap size_mod e s).pc i ≡ s.pc i
  unfolding step
  other-same e s h = ground (arith, h)

  other-At :
      (c : Cancelable A) (e : Event A) (s : Stage)
      → At c s
      → At (loop_step cap size_mod i (try_push v) c (other e)) s
  unfolding loop_step run
  other-At c e s h = ground (arith, h, other-same e c.system)

  run-Follows :
      (c : Cancelable A) (xs : List (Input A)) (s : Stage)
      → At c s
      → (s' : Stage) × Follows s c xs s' × At (loop_run cap size_mod i (try_push v) c xs) s'
  unfolding loop_run loop_step
  run-Follows c [] s h = (s, refl, h)
  run-Follows c (own ∷ xs) s h =
      let (s', e, k) = own-At c.system c.stop c.loop s h in
      let (s'', f, l) = run-Follows (loop_step cap size_mod i (try_push v) c own) xs s' k in
      (s'', (s', e, f), l)
  run-Follows c (other e ∷ xs) s h =
      run-Follows (loop_step cap size_mod i (try_push v) c (other e)) xs s (other-At c e s h)
  run-Follows c (stops ∷ xs) s h =
      run-Follows (loop_step cap size_mod i (try_push v) c stops) xs s h

  -- A loop of cancelable_bounded_push by a thread that is in no call, in any interleaving with
  -- other threads and a stop request, is a run of the queue. If it has returned true, the steps
  -- of its thread have changed the memory three times, in this order: the ticket at the head was
  -- taken and its value recorded, the value was constructed in the slot of that ticket, and the
  -- turn of that slot was stored, all its other steps leaving the memory as it was. If it has
  -- returned false, none of its steps has changed the memory.
  pub pushes_once :
      (c : Cancelable A) (xs : List (Input A)) (b : Bool)
      → c.loop ≡ at_test
      → is_idle (c.system.pc i) ≡ true
      → (loop_run cap size_mod i (try_push v) c xs).loop ≡ returned b
      → Follows looking c xs (stage_of b)
        × ((loop_run cap size_mod i (try_push v) c xs).system
            ≡ run cap size_mod (loop_events cap size_mod i (try_push v) c xs) c.system)
  pushes_once c xs b l d e =
      let start : At c looking = ground (arith, l, d) in
      let (s, f, a) = run-Follows c xs looking start in
      let q : s ≡ stage_of b = ground (arith, e, a) in
      (subst (Follows looking c xs) q f, loop_run-is_run cap size_mod i (try_push v) c xs)
