-- ===== src/Exec/AtomicQueue/Destructor.antt =====
-- The end of a queue that no thread uses any more.
use native.Mathlib.Decide.{dec_lt}
use native.Mathlib.Nat.{mod-eq_of_lt}
use yk_util.Base.{
  ℕ, zero, suc, ◌+◌, ◌*◌, ◌/◌, ◌%◌, ◌≤◌, ◌<◌, ◌≡◌, ◌≢◌, sym, ap, ◌∙◌, subst, true, false, List,
  some, length, arith, inl, inr, ◌⊎◌, ◌==◌,
}
use yk_util.Exec.AtomicQueue.{
  idx, turn, Memory, Pc, live, init, Event, run, destroy_slot, destroy_slots, is_idle,
}
use yk_util.Exec.AtomicQueue.Slots.{ticket_of}
use yk_util.Exec.AtomicQueue.Invariant.{Inv, now, cell, ticket, Vacant, Stored}
use yk_util.Exec.AtomicQueue.Safety.{reached, is_idle-eq}
use yk_util.Exec.AtomicQueue.Progress.{reached-Held}
use yk_util.Exec.AtomicQueue.Progress.Tickets.{Held}

module _ {A : Type 0} (cap : ℕ) (m : Memory A) where
  -- The slots from `i` on have an object where their turn is odd, and those before have none.
  pub record Clean (i : ℕ) : Type 0 where
    pub sound : m.fault ≡ false
    pub rest : (s : ℕ) → i ≤ s → s < cap → live (m.storage s) ≡ (m.turns s % 2 == 1)
    pub gone : (s : ℕ) → s < i → live (m.storage s) ≡ false

module _ {A : Type 0} (cap : ℕ) where
  destroy_slot-Clean :
      (i : ℕ) (m : Memory A) → i < cap → Clean cap m i → Clean cap (destroy_slot cap i m) (i + 1)
  unfolding destroy_slot idx
  destroy_slot-Clean i m l c =
      let e : i % cap ≡ i = mod-eq_of_lt l in
      record {
        sound = ground (arith, e, c.sound, c.rest i);
        rest = λ s h k. ground (arith, e, c.rest s);
        gone = λ s h. ground (arith, e, c.gone s, c.rest i);
      }

  destroy_slots-Clean :
      (left i : ℕ) (m : Memory A)
      → i + left ≡ cap
      → Clean cap m i
      → Clean cap (destroy_slots cap left i m) cap
  unfolding destroy_slots
  destroy_slots-Clean zero i m e c = let q : i ≡ cap = omega arith in subst (Clean cap m) q c
  destroy_slots-Clean (suc left) i m e c =
      destroy_slots-Clean left (i + 1) (destroy_slot cap i m) (omega arith)
        (destroy_slot-Clean i m (omega arith) c)

  module _ (n : ℕ) (m : Memory A) (pc : ℕ → Pc A) (v : Inv cap m n pc) (h : Held cap m pc)
      (r : (i : ℕ) → is_idle (pc i) ≡ true) where
    no_ticket : (i d k : ℕ) → ticket (pc i) ≢ some (d, k)
    no_ticket i d k e =
        let (a, q) = is_idle-eq cap n (pc i) (r i) in let z = sym e ∙ ap ticket q in cc

    -- The ticket whose turn a slot has shows whether it has an object.
    slot_parity :
        (k : ℕ)
        → (now cap m k ≡ turn cap k * 2) ⊎ (now cap m k ≡ turn cap k * 2 + 1)
        → live (cell cap m k) ≡ (now cap m k % 2 == 1)
    slot_parity k (inl e) = even (elim (dec_lt k m.head) [
      | no l ↦ (v.shared.to_push k (omega arith)).1
      | yes l ↦ elim (h 0 k l) [
        | inl g ↦ absurd (omega arith)
        | inr (i, q) ↦ absurd (no_ticket i 0 k q)
      ]
    ])
      where
        even : Vacant cap m k → live (cell cap m k) ≡ (now cap m k % 2 == 1)
        even w = grind (arith, e, w)
    slot_parity k (inr e) =
        let before : k < m.head = ground (arith, e, v.shared.to_push k) in
        let whole = v.shared.issued k before in
        odd whole (elim (dec_lt k m.tail) [
          | no l ↦ (v.shared.to_pop k (omega arith)).1
          | yes l ↦ elim (h 1 k l) [
            | inl g ↦ absurd (omega arith)
            | inr (i, q) ↦ absurd (no_ticket i 1 k q)
          ]
        ])
      where
        odd :
            live (m.pushed k) ≡ true → Stored cap m k → live (cell cap m k) ≡ (now cap m k % 2 == 1)
        odd w s = grind (arith, e, w, s)

    resting-Clean : Clean cap m 0
    resting-Clean = record {
      sound = v.shared.sound;
      rest = λ s h l. slot s l;
      gone = λ s h. absurd (omega arith);
    }
      where
        slot : (s : ℕ) → s < cap → live (m.storage s) ≡ (m.turns s % 2 == 1)
        slot s l =
            let k = m.turns s / 2 * cap + s in
            let (i, t) = ticket_of cap s (m.turns s / 2) l in
            let same : now cap m k ≡ m.turns s = ap m.turns i in
            let half : (now cap m k ≡ turn cap k * 2) ⊎ (now cap m k ≡ turn cap k * 2 + 1) =
              grind (arith, t, same) in
            subst (λ s. live (m.storage s) ≡ (m.turns s % 2 == 1)) i (slot_parity k half)

  module _ (size_mod : ℕ) (es : List (Event A)) (short : 2 * length es + 2 ≤ size_mod) where
    -- When no thread is in a call, the destructor of the store, which goes by the parity of each
    -- turn, destroys exactly the objects that are left: none is destroyed where there is none,
    -- and no slot has an object afterwards, in every run of any number of threads over a store
    -- of any capacity with so few events that twice their number and two is at most the number
    -- of values of std::size_t.
    pub destructor_sound :
        ((i : ℕ) → is_idle ((run cap size_mod es init).pc i) ≡ true)
        → ((destroy_slots cap cap 0 (run cap size_mod es init).mem).fault ≡ false)
          × ((s : ℕ)
              → s < cap
              → live ((destroy_slots cap cap 0 (run cap size_mod es init).mem).storage s) ≡ false)
    destructor_sound r =
        let c = destroy_slots-Clean cap 0 _ (omega arith) (
          resting-Clean (length es) _ _ (reached cap size_mod es short)
            (reached-Held cap size_mod es short) r) in
        (c.sound, c.gone)
