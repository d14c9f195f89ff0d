-- ===== src/Exec/AtomicQueue/Slots.antt =====
-- Tickets, and the slots and rounds that they stand for.
use yk_util.Base.{ℕ, ◌*◌, ◌+◌, ◌-◌, ◌≤◌, ◌<◌, ◌≡◌, arith}
use yk_util.Exec.AtomicQueue.{idx, turn}

-- A ticket is determined by its slot and its round.
pub ticket_inj : (cap k k' : ℕ) → idx cap k ≡ idx cap k' → turn cap k ≡ turn cap k' → k ≡ k'
unfolding idx turn
ticket_inj cap k k' p q = grind arith

pub turn_mono : (cap k k' : ℕ) → k ≤ k' → turn cap k ≤ turn cap k'
unfolding turn
turn_mono cap k k' h = grind arith

pub turn-le : (cap k : ℕ) → turn cap k ≤ k
unfolding turn
turn-le cap k = grind arith

pub idx-lt : (cap k : ℕ) → 0 < cap → idx cap k < cap
unfolding idx
idx-lt cap k h = grind arith

-- The ticket before it of the same slot.
pub idx-sub : (cap k : ℕ) → cap ≤ k → idx cap (k - cap) ≡ idx cap k
unfolding idx
idx-sub cap k h = grind arith

pub turn-sub : (cap k : ℕ) → 0 < cap → cap ≤ k → turn cap k ≡ turn cap (k - cap) + 1
unfolding turn
turn-sub cap k p h = grind arith

pub turn-first : (cap k : ℕ) → k < cap → turn cap k ≡ 0
unfolding turn
turn-first cap k h = grind arith

-- Every slot and round has a ticket.
pub ticket_of : (cap s r : ℕ) → s < cap → (idx cap (r * cap + s) ≡ s) × (turn cap (r * cap + s) ≡ r)
unfolding idx turn
ticket_of cap s r l = (grind arith, grind arith)
