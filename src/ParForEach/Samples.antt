-- ===== src/ParForEach/Samples.antt =====
-- Two elements, of which the second makes `func` throw.
use yk_util.Base.{ℕ, zero, suc, ◌≤◌, ◌<◌, ◌≡◌, refl, List, [], ◌∷◌, Option, none, some, arith}
use yk_util.ParForEach.{abort_policy, proceed_policy, begin, run, test, after}
use yk_util.ParForEach.Jobs.{Ended, Thrown}
use yk_util.ParForEach.Ends.{turns, for_each_ends}

abbrev func : ℕ → Option ℕ
func zero = none
func (suc i) = some 7

abbrev schedule : List ℕ
schedule = 1 ∷ 1 ∷ 1 ∷ 0 ∷ 0 ∷ 0 ∷ []

-- The abort policy skips the first element, the other one does not.
aborted : (run abort_policy func 2 schedule begin).invoked 0 ≡ 0
unfolding run test after
aborted = refl

proceeded : (run proceed_policy func 2 schedule begin).invoked 0 ≡ 1
unfolding run test after
proceeded = refl

rethrown : (run abort_policy func 2 schedule begin).exception ≡ some 7
unfolding run test after
rethrown = refl

enough_turns : (i : ℕ) → i < 2 → 3 ≤ turns i schedule
enough_turns zero l = omega arith
enough_turns (suc zero) l = omega arith
enough_turns (suc (suc i)) l = absurd (omega arith)

for_each_ends_example :
    ((i : ℕ)
      → i < 2
      → Ended abort_policy func
          (run abort_policy func 2 schedule begin).exception
          i
          ((run abort_policy func 2 schedule begin).invoked i))
    × Thrown abort_policy func 2 (run abort_policy func 2 schedule begin)
for_each_ends_example = for_each_ends abort_policy func 2 schedule enough_turns
