-- ===== src/Exec/AtomicQueue.antt =====
-- include/yk/exec/atomic_queue.hpp: the bounded queue without locks, `atomic_queue_impl` over the
-- slots of a store. Each access to an atomic variable is a step of a thread; the accesses to the
-- storage of a slot, which are not atomic, are steps too, so that other threads may come in between.
-- Memory is sequentially consistent, which acquire loads and release stores of `turn` ask for at
-- least. `size_mod` is the number of values of `std::size_t`.
pub mod Slots
pub mod Invariant
pub mod Safety
pub mod Progress
pub mod Destructor
pub mod Cancelable
pub mod Attempts
pub mod Ends
mod Samples
use yk_util.Base.{
  ℕ, zero, suc, ltb, ◌-◌, ◌+◌, ◌*◌, ◌/◌, ◌%◌, Bool, true, false, not, List, [], ◌∷◌, ◌||◌, Option,
  none, some, ◌==◌, if◌then◌else◌,
}

abbrev pub update {ℓ} : {A : Type ℓ} → (ℕ → A) → ℕ → A → ℕ → A
update f i a j = if j == i then a else f j

-- `idx` and `turn`
unfoldable pub idx : ℕ → ℕ → ℕ
idx cap i = i % cap

unfoldable pub turn : ℕ → ℕ → ℕ
turn cap i = i / cap

-- The shared memory, and two records of what happened: the argument of the push with a ticket, and
-- what the pop with a ticket has read. A slot whose storage holds no object is `none`.
pub record Memory (A : Type 0) : Type 0 where
  pub head : ℕ
  pub tail : ℕ
  pub turns : ℕ → ℕ
  pub storage : ℕ → Option A
  pub pushed : ℕ → Option A
  pub popped : ℕ → Option A
  pub fault : Bool  -- an object was constructed over another, or used where there is none

-- Every `turn` starts at 0.
abbrev pub create : {A : Type 0} → Memory A
create = record {
  head = 0;
  tail = 0;
  turns = λ s. 0;
  storage = λ s. none;
  pushed = λ k. none;
  popped = λ k. none;
  fault = false;
}

-- The constructor of `atomic_queue_store_dynamic`; `none` is std::bad_alloc.
unfoldable pub create_store : {A : Type 0} → ℕ → Option (Memory A)
create_store capacity = if ltb capacity 1 then none else some create

pub data Answer (A : Type 0) : Type 0 where
  none_yet pushed refused empty : Answer A
  delivered : A → Answer A

-- Where a thread stands, with its local variables: `k` is a ticket it has, `h` a value of `head_` or
-- `tail_` that it has read.
pub data Pc (A : Type 0) : Type 0 where
  idle : Answer A → Pc A
  pushing : ℕ → A → Pc A  -- the loop in `push`
  try_push_at : ℕ → A → Pc A  -- head of the loop in `try_push`
  try_push_cas : ℕ → A → Pc A
  try_push_again : ℕ → A → Pc A  -- before `head` is read again
  constructing : ℕ → A → Pc A
  publishing : ℕ → Pc A  -- before the store of `turn`
  popping : ℕ → Pc A
  try_pop_at : ℕ → Pc A
  try_pop_cas : ℕ → Pc A
  try_pop_again : ℕ → Pc A
  extracting : ℕ → Pc A
  destroying : ℕ → A → Pc A
  releasing : ℕ → A → Pc A

pub data Call (A : Type 0) : Type 0 where
  push try_push : A → Call A
  pop try_pop : Call A

abbrev pub live : {A : Type 0} → Option A → Bool
live none = false
live (some a) = true

-- `head_.fetch_add(1)`, or the successful exchange of `head` for `head + 1`
unfoldable pub take_head : {A : Type 0} → ℕ → A → Memory A → Memory A
take_head size_mod v m = record m {
  head = (m.head + 1) % size_mod;
  pushed = update m.pushed m.head (some v);
}

unfoldable pub take_tail : {A : Type 0} → ℕ → Memory A → Memory A
take_tail size_mod m = record m { tail = (m.tail + 1) % size_mod }

-- `slot.construct`
unfoldable pub construct : {A : Type 0} → ℕ → ℕ → A → Memory A → Memory A
construct cap k v m = record m {
  storage = update m.storage (idx cap k) (some v);
  fault = m.fault || live (m.storage (idx cap k));
}

-- `slot.destroy`
unfoldable pub destroy : {A : Type 0} → ℕ → ℕ → Memory A → Memory A
destroy cap k m = record m {
  storage = update m.storage (idx cap k) none;
  fault = m.fault || not (live (m.storage (idx cap k)));
}

unfoldable pub store_turn : {A : Type 0} → ℕ → ℕ → ℕ → ℕ → Memory A → Memory A
store_turn cap size_mod k t m = record m { turns = update m.turns (idx cap k) (t % size_mod) }

-- The destructor of a slot, and the loop of the store's over the slots from `i` on.
unfoldable pub destroy_slot : {A : Type 0} → ℕ → ℕ → Memory A → Memory A
unfolding destroy
destroy_slot cap i m = if m.turns (idx cap i) % 2 == 1 then destroy cap i m else m

unfoldable pub destroy_slots : {A : Type 0} → ℕ → ℕ → ℕ → Memory A → Memory A
unfolding destroy_slot
destroy_slots cap zero i m = m
destroy_slots cap (suc left) i m = destroy_slots cap left (i + 1) (destroy_slot cap i m)

-- `turn(k) * 2 == slot.turn.load()`
abbrev pub may_push : {A : Type 0} → ℕ → ℕ → Memory A → Bool
may_push cap k m = turn cap k * 2 == m.turns (idx cap k)

-- `turn(k) * 2 + 1 == slot.turn.load()`
abbrev pub may_pop : {A : Type 0} → ℕ → ℕ → Memory A → Bool
may_pop cap k m = turn cap k * 2 + 1 == m.turns (idx cap k)

-- `v = slot.extract()`
unfoldable pub extract : {A : Type 0} → ℕ → ℕ → Memory A → Memory A × Pc A
extract cap k m = elim (m.storage (idx cap k)) [
  | none ↦ (record m { fault = true }, idle empty)
  | some v ↦ (record m { popped = update m.popped k (some v) }, destroying k v)
]

module _ {A : Type 0} where
  -- The first access of a call.
  unfoldable pub start : ℕ → Call A → Memory A → Memory A × Pc A
  unfolding take_head take_tail
  start size_mod (push v) m = (take_head size_mod v m, pushing m.head v)
  start size_mod (try_push v) m = (m, try_push_at m.head v)
  start size_mod pop m = (take_tail size_mod m, popping m.tail)
  start size_mod try_pop m = (m, try_pop_at m.tail)

  -- The next access of a thread, over a store of `cap` slots.
  unfoldable pub advance : ℕ → ℕ → Pc A → Memory A → Memory A × Pc A
  unfolding take_head take_tail construct destroy store_turn extract
  advance cap size_mod (idle a) m = (m, idle a)
  advance cap size_mod (pushing k v) m =
      if may_push cap k m then (m, constructing k v) else (m, pushing k v)
  advance cap size_mod (try_push_at h v) m =
      if may_push cap h m then (m, try_push_cas h v) else (m, try_push_again h v)
  advance cap size_mod (try_push_cas h v) m =
      if m.head == h then (take_head size_mod v m, constructing h v) else (m, try_push_at m.head v)
  advance cap size_mod (try_push_again h v) m =
      if m.head == h then (m, idle refused) else (m, try_push_at m.head v)
  advance cap size_mod (constructing k v) m = (construct cap k v m, publishing k)
  advance cap size_mod (publishing k) m =
      (store_turn cap size_mod k (turn cap k * 2 + 1) m, idle pushed)
  advance cap size_mod (popping k) m = if may_pop cap k m then (m, extracting k) else (m, popping k)
  advance cap size_mod (try_pop_at h) m =
      if may_pop cap h m then (m, try_pop_cas h) else (m, try_pop_again h)
  advance cap size_mod (try_pop_cas h) m =
      if m.tail == h then (take_tail size_mod m, extracting h) else (m, try_pop_at m.tail)
  advance cap size_mod (try_pop_again h) m =
      if m.tail == h then (m, idle empty) else (m, try_pop_at m.tail)
  advance cap size_mod (extracting k) m = extract cap k m
  advance cap size_mod (destroying k v) m = (destroy cap k m, releasing k v)
  advance cap size_mod (releasing k v) m =
      (store_turn cap size_mod k (turn cap k * 2 + 2) m, idle (delivered v))

-- `size`: the difference of the counters is read as a signed number.
unfoldable pub size : {A : Type 0} → ℕ → Memory A → ℕ
size size_mod m =
    let diff = (m.head + size_mod - m.tail) % size_mod in
    if ltb diff (size_mod / 2) then diff else size_mod - diff

-- The queue with its threads.
pub record System (A : Type 0) : Type 0 where
  pub mem : Memory A
  pub pc : ℕ → Pc A

abbrev pub init : {A : Type 0} → System A
init = record { mem = create; pc = λ i. idle none_yet }

pub data Event (A : Type 0) : Type 0 where
  calls : ℕ → Call A → Event A
  moves : ℕ → Event A

abbrev pub is_idle : {A : Type 0} → Pc A → Bool
is_idle (idle a) = true
is_idle _ = false

module _ {A : Type 0} where
  abbrev pub put : ℕ → System A → Memory A × Pc A → System A
  put i s r = record { mem = r.0; pc = update s.pc i r.1 }

  -- A thread calls only when its last call has returned.
  unfoldable pub step : ℕ → ℕ → Event A → System A → System A
  unfolding start advance
  step cap size_mod (calls i c) s = if is_idle (s.pc i) then put i s (start size_mod c s.mem) else s
  step cap size_mod (moves i) s = put i s (advance cap size_mod (s.pc i) s.mem)

  unfoldable pub run : ℕ → ℕ → List (Event A) → System A → System A
  unfolding step
  run cap size_mod [] s = s
  run cap size_mod (e ∷ es) s = run cap size_mod es (step cap size_mod e s)
