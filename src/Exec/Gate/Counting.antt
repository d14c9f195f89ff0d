-- ===== src/Exec/Gate/Counting.antt =====
-- What a gate counts, and what it does not.
use yk_util.Base.{ℕ, zero, suc, ◌+◌, ◌≤◌, ◌≡◌, refl, Bool, true, false, arith}
use yk_util.Exec.Gate.{
  Gate, Checked, ok, logic_error, undefined, accessed_twice, make_gate, mark_access, counted_by,
}

-- `n` accesses in a row.
unfoldable pub accesses : Bool → ℕ → Gate → Checked Gate
accesses ndebug zero g = ok g
accesses ndebug (suc n) g = elim (mark_access ndebug g) [
  | ok g' ↦ accesses ndebug n g'
  | logic_error e ↦ logic_error e
  | undefined ↦ undefined
]

accesses-counted :
    (ndebug : Bool) (n : ℕ) (g : Gate)
    → g.is_counted ≡ true
    → (g' : Gate) × (accesses ndebug n g ≡ ok g') × (counted_by g' ≡ g.count + n)
unfolding accesses mark_access counted_by
accesses-counted ndebug zero g c = (g, refl, ground arith)
accesses-counted ndebug (suc n) g c =
    let (g', e, k) = accesses-counted ndebug n (record g { count = g.count + 1 }) c in
    (g', ground (arith, e), ground (arith, k))

accesses-plain : (n : ℕ) (g : Gate) → g.is_counted ≡ false → accesses true n g ≡ ok g
unfolding accesses mark_access
accesses-plain zero g c = refl
accesses-plain (suc n) g c = ground (arith, accesses-plain n g c)

-- A counted gate reports every access, whatever the build.
pub counted_gate_counts :
    (ndebug : Bool) (n : ℕ)
    → (g : Gate) × (accesses ndebug n (make_gate true) ≡ ok g) × (counted_by g ≡ n)
counted_gate_counts ndebug n =
    let (g, e, k) = accesses-counted ndebug n (make_gate true) refl in (g, e, omega (arith, k))

-- A gate that does not count takes a second access for a logic_error in a debug build, and with
-- NDEBUG it allows two or more accesses and reports one.
pub plain_gate_miscounts :
    (n : ℕ)
    → 2 ≤ n
    → (accesses false n (make_gate false) ≡ logic_error accessed_twice)
      × ((g : Gate) × (accesses true n (make_gate false) ≡ ok g) × (counted_by g ≡ 1))
unfolding accesses mark_access counted_by
plain_gate_miscounts zero h = absurd (omega arith)
plain_gate_miscounts (suc zero) h = absurd (omega arith)
plain_gate_miscounts (suc (suc n)) h =
    (refl, (make_gate false, accesses-plain (suc (suc n)) (make_gate false) refl, refl))
