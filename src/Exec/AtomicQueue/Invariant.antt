-- ===== src/Exec/AtomicQueue/Invariant.antt =====
-- Who holds which ticket, and what the slots of the tickets contain.
mod Defs
pub mod Ops
pub mod Whole
pub mod Moves
pub mod Steps
pub use Defs.*
