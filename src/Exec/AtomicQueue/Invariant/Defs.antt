-- ===== src/Exec/AtomicQueue/Invariant/Defs.antt =====
-- The invariant of the queue with its threads.
use yk_util.Base.{
  ℕ, ◌+◌, ◌*◌, ◌≤◌, ◌<◌, ◌≡◌, true, false, ◌&&◌, Option, none, some, ◌==◌, if◌then◌else◌,
}
use yk_util.Exec.AtomicQueue.{
  idx, turn, Memory, Pc, pushing, try_push_cas, constructing, publishing, popping, try_pop_cas,
  extracting, destroying, releasing, live,
}

-- A ticket with its side: 0 for a push, 1 for a pop.
abbrev pub ticket : {A : Type 0} → Pc A → Option (ℕ × ℕ)
ticket (pushing k v) = some (0, k)
ticket (constructing k v) = some (0, k)
ticket (publishing k) = some (0, k)
ticket (popping k) = some (1, k)
ticket (extracting k) = some (1, k)
ticket (destroying k v) = some (1, k)
ticket (releasing k v) = some (1, k)
ticket _ = none

module _ {A : Type 0} (cap : ℕ) (m : Memory A) (k : ℕ) where
  -- the `turn` of the slot of a ticket, and its storage
  abbrev pub now : ℕ
  now = m.turns (idx cap k)

  abbrev pub cell : Option A
  cell = m.storage (idx cap k)

  -- When it is the turn of a push, the slot has no object.
  abbrev pub Vacant : Type 0
  Vacant = ((now == turn cap k * 2) && live cell) ≡ false

  -- When it is the turn of a pop, the slot has the object that was pushed.
  abbrev pub Stored : Type 0
  Stored = (if now == turn cap k * 2 + 1 then cell else m.pushed k) ≡ m.pushed k

module _ {A : Type 0} (cap : ℕ) (m : Memory A) where
  -- What the state of a thread says about memory.
  abbrev pub Fits : Pc A → Type 0
  Fits (pushing k v) =
      (k < m.head) × (now cap m k ≤ turn cap k * 2) × (m.pushed k ≡ some v) × Vacant cap m k
  Fits (constructing k v) =
      (k < m.head)
      × (now cap m k ≡ turn cap k * 2)
      × (m.pushed k ≡ some v)
      × (live (cell cap m k) ≡ false)
  Fits (publishing k) = (k < m.head) × (now cap m k ≡ turn cap k * 2) × (cell cap m k ≡ m.pushed k)
  Fits (popping k) = (k < m.tail) × (now cap m k ≤ turn cap k * 2 + 1) × Stored cap m k
  Fits (extracting k) =
      (k < m.tail) × (now cap m k ≡ turn cap k * 2 + 1) × (cell cap m k ≡ m.pushed k)
  Fits (destroying k v) =
      (k < m.tail) × (now cap m k ≡ turn cap k * 2 + 1) × (cell cap m k ≡ some v)
  Fits (releasing k v) =
      (k < m.tail) × (now cap m k ≡ turn cap k * 2 + 1) × (live (cell cap m k) ≡ false)
  Fits (try_push_cas h v) = turn cap h * 2 ≤ now cap m h
  Fits (try_pop_cas h) = turn cap h * 2 + 1 ≤ now cap m h
  Fits _ = Unit {0}

  -- What holds of memory alone, at most `n` tickets of each side having been taken.
  pub record Shared (n : ℕ) : Type 0 where
    pub small : (m.head ≤ n) × (m.tail ≤ n)
    pub sound : m.fault ≡ false
    pub to_push : (k : ℕ) → m.head ≤ k → (now cap m k ≤ turn cap k * 2) × Vacant cap m k
    pub to_pop : (k : ℕ) → m.tail ≤ k → (now cap m k ≤ turn cap k * 2 + 1) × Stored cap m k
    pub issued : (k : ℕ) → k < m.head → live (m.pushed k) ≡ true
    pub in_order : (k : ℕ) (v : A) → m.popped k ≡ some v → (k < m.head) × (m.pushed k ≡ some v)

  pub record Inv (n : ℕ) (pc : ℕ → Pc A) : Type 0 where
    pub shared : Shared n
    pub fits : (i : ℕ) → Fits (pc i)
    pub unique : (i j d k : ℕ) → ticket (pc i) ≡ some (d, k) → ticket (pc j) ≡ some (d, k) → i ≡ j
