-- ===== src/Exec/Gate.antt =====
-- include/yk/exec/queue_gate.hpp: what a worker's callback gets instead of the queue, and what the
-- scheduler reads off it when the callback is done.
-- The queue itself is a parameter: `push_wait` and `pop_wait` forward to it after `mark_access`.
pub mod Counting
use yk_util.Base.{ℕ, ◌+◌, Bool, true, false, not, if◌then◌else◌}

-- `queue_gate_flag`: `counted` for multi-push and multi-pop workers
pub record Gate : Type 0 where
  pub is_counted : Bool
  pub discarded : Bool  -- `queue_ == nullptr`
  pub already_accessed : Bool  -- only `#ifndef NDEBUG`
  pub count : ℕ

pub data GateError : Type 0 where
  accessed_twice discarded_twice : GateError

pub data Checked {ℓ} (R : Type ℓ) : Type ℓ where
  ok : R → Checked R
  logic_error : GateError → Checked R
  undefined : Checked R

abbrev pub make_gate : Bool → Gate
make_gate counted = record {
  is_counted = counted;
  discarded = false;
  already_accessed = false;
  count = 0;
}

-- `ndebug` says whether NDEBUG is defined.
unfoldable pub mark_access : Bool → Gate → Checked Gate
mark_access ndebug g =
    if g.is_counted
    then ok (record g { count = g.count + 1 })
    else if ndebug
    then ok g
    else if g.already_accessed
    then logic_error accessed_twice
    else ok (record g { already_accessed = true })

-- `discard()` exists for gates that do not count.
pub discard : Gate → Checked Gate
discard g = if g.discarded then logic_error discarded_twice else ok (record g { discarded = true })

abbrev pub is_discarded : Gate → Bool
is_discarded g = g.discarded

-- `push_wait` and `pop_wait` on a queue whose own call is `call`; after `discard` the pointer that
-- they go through is null.
pub through {ℓ κ} : {Q : Type ℓ} {R : Type κ} → Bool → Gate → (Q → R) → Q → Checked (Gate × R)
unfolding mark_access
through ndebug g call q = elim (mark_access ndebug g) [
  | ok g' ↦ if g'.discarded then undefined else ok (g', call q)
  | logic_error e ↦ logic_error e
  | undefined ↦ undefined
]

-- What `do_worker_producer` and `do_worker_consumer` add to their counter for a gate.
unfoldable pub counted_by : Gate → ℕ
counted_by g = if g.is_counted then g.count else if not (is_discarded g) then 1 else 0
