-- ===== src/Exec/AtomicQueue/Invariant/Whole.antt =====
-- What an access does to memory as a whole.
use native.Mathlib.Nat.{mod-eq_of_lt}
use yk_util.Base.{ℕ, suc, ◌+◌, ◌*◌, ◌<◌, ◌≡◌, false, some, arith, ◌%◌}
use yk_util.Exec.AtomicQueue.{
  turn, update, Memory, live, take_head, take_tail, construct, destroy, store_turn,
}
use yk_util.Exec.AtomicQueue.Slots.{ticket_inj, turn_mono}
use yk_util.Exec.AtomicQueue.Invariant.Defs.{now, cell, Shared}

module _ {A : Type 0} (cap n : ℕ) (m : Memory A) (s : Shared cap m n) where
  -- time passes
  pub later-Shared : Shared cap m (suc n)
  later-Shared = record {
    small = omega (arith, s.small);
    sound = s.sound;
    to_push = s.to_push;
    to_pop = s.to_pop;
    issued = s.issued;
    in_order = s.in_order;
  }

  pub construct-Shared :
      (k : ℕ) (v : A)
      → k < m.head
      → now cap m k ≡ turn cap k * 2
      → live (cell cap m k) ≡ false
      → Shared cap (construct cap k v m) n
  unfolding construct
  construct-Shared k v l t c = record {
    small = s.small;
    sound = ground (arith, s.sound);
    to_push = λ k' h. ground (arith, s.to_push k' h, ticket_inj cap k k');
    to_pop = λ k' h. ground (arith, s.to_pop k' h);
    issued = s.issued;
    in_order = s.in_order;
  }

  pub destroy-Shared :
      (k : ℕ) (v : A)
      → k < m.tail
      → now cap m k ≡ turn cap k * 2 + 1
      → cell cap m k ≡ some v
      → Shared cap (destroy cap k m) n
  unfolding destroy
  destroy-Shared k v l t c = record {
    small = s.small;
    sound = ground (arith, s.sound);
    to_push = λ k' h. ground (arith, s.to_push k' h);
    to_pop = λ k' h. ground (arith, s.to_pop k' h, ticket_inj cap k k');
    issued = s.issued;
    in_order = s.in_order;
  }

  pub store_turn_pushed-Shared :
      (size_mod k : ℕ)
      → k < m.head
      → now cap m k ≡ turn cap k * 2
      → turn cap k * 2 + 1 < size_mod
      → cell cap m k ≡ m.pushed k
      → Shared cap (store_turn cap size_mod k (turn cap k * 2 + 1) m) n
  unfolding store_turn
  store_turn_pushed-Shared size_mod k l t b c =
      let e : (turn cap k * 2 + 1) % size_mod ≡ turn cap k * 2 + 1 = mod-eq_of_lt b in
      record {
        small = s.small;
        sound = s.sound;
        to_push = λ k' h.
            ground
              (arith, e, s.to_push k' h, ticket_inj cap k k', turn_mono cap k k' (omega arith));
        to_pop = λ k' h. ground (arith, e, s.to_pop k' h, ticket_inj cap k k');
        issued = s.issued;
        in_order = s.in_order;
      }

  pub store_turn_popped-Shared :
      (size_mod k : ℕ)
      → k < m.tail
      → now cap m k ≡ turn cap k * 2 + 1
      → turn cap k * 2 + 2 < size_mod
      → live (cell cap m k) ≡ false
      → Shared cap (store_turn cap size_mod k (turn cap k * 2 + 2) m) n
  unfolding store_turn
  store_turn_popped-Shared size_mod k l t b c =
      let e : (turn cap k * 2 + 2) % size_mod ≡ turn cap k * 2 + 2 = mod-eq_of_lt b in
      record {
        small = s.small;
        sound = s.sound;
        to_push = λ k' h. ground (arith, e, s.to_push k' h, ticket_inj cap k k');
        to_pop = λ k' h.
            ground (arith, e, s.to_pop k' h, ticket_inj cap k k', turn_mono cap k k' (omega arith));
        issued = s.issued;
        in_order = s.in_order;
      }

  pub take_head-Shared :
      (size_mod : ℕ) (v : A) → m.head + 1 < size_mod → Shared cap (take_head size_mod v m) (suc n)
  unfolding take_head
  take_head-Shared size_mod v b =
      let e : (m.head + 1) % size_mod ≡ m.head + 1 = mod-eq_of_lt b in
      record {
        small = omega (arith, e, s.small);
        sound = s.sound;
        to_push = λ k h. s.to_push k (omega (arith, e, h));
        to_pop = λ k h. ground (arith, s.to_pop k h, s.to_push m.head (omega arith));
        issued = λ k h. ground (arith, e, s.issued k);
        in_order = λ k w h. ground (arith, e, s.in_order k w h);
      }

  pub take_tail-Shared :
      (size_mod : ℕ) → m.tail + 1 < size_mod → Shared cap (take_tail size_mod m) (suc n)
  unfolding take_tail
  take_tail-Shared size_mod b =
      let e : (m.tail + 1) % size_mod ≡ m.tail + 1 = mod-eq_of_lt b in
      record {
        small = omega (arith, e, s.small);
        sound = s.sound;
        to_push = s.to_push;
        to_pop = λ k h. s.to_pop k (omega (arith, e, h));
        issued = s.issued;
        in_order = s.in_order;
      }

  -- A pop reads what the push with its ticket has stored.
  pub extract-Shared :
      (k : ℕ) (v : A)
      → k < m.head
      → m.pushed k ≡ some v
      → Shared cap (record m { popped = update m.popped k (some v) }) n
  extract-Shared k v l c = record {
    small = s.small;
    sound = s.sound;
    to_push = s.to_push;
    to_pop = s.to_pop;
    issued = s.issued;
    in_order = λ k' w h. ground (arith, s.in_order k' w);
  }
