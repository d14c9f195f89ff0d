-- ===== src/Compare/Samples.antt =====
-- Pairs of numbers, compared by the first part and then by the second.
use yk_util.Base.{ℕ, ◌≡◌, refl, some, if◌then◌else◌, ltb, arith}
use yk_util.Compare.{
  strong_ordering, weak_ordering, Value, less, equivalent, greater, Comparator, wrapper_comparator,
  promote_comparator, extract_comparator, Call, instantiate, is_promotable, promote_result,
}
use yk_util.Compare.Laws.{IsWeakOrder, instantiate-IsWeakOrder}

abbrev three_way : ℕ → ℕ → Value
three_way a b = if ltb a b then less else if ltb b a then greater else equivalent

abbrev first : ℕ × ℕ → ℕ
first x = x.0

abbrev second : ℕ × ℕ → ℕ
second x = x.1

abbrev by_first : ℕ × ℕ → ℕ × ℕ → Value
by_first x y = three_way x.0 y.0

-- The weak order of the first parts, promoted by the order of the second.
abbrev promoted : Comparator (ℕ × ℕ) ℕ
promoted =
    promote_comparator (wrapper_comparator weak_ordering by_first) (extract_comparator second)

abbrev compiled : Call (ℕ × ℕ)
compiled = record {
  category = strong_ordering;
  run = λ x y. promote_result weak_ordering strong_ordering (by_first x y) (three_way x.1 y.1);
}

promoted_compiles : instantiate strong_ordering three_way promoted ≡ some compiled
unfolding instantiate is_promotable
promoted_compiles = refl

compiled_result : compiled.run (1, 5) (1, 7) ≡ less
unfolding promote_result
compiled_result = refl

three_way-IsWeakOrder : IsWeakOrder three_way
three_way-IsWeakOrder = record {
  total = λ x y. ground arith;
  flips = λ x y. ground arith;
  trans = λ x y z p q. ground arith;
}

by_first-IsWeakOrder : IsWeakOrder by_first
by_first-IsWeakOrder = record {
  total = λ x y. ground arith;
  flips = λ x y. ground arith;
  trans = λ x y z p q. ground arith;
}

instantiate-IsWeakOrder_example : IsWeakOrder compiled.run
instantiate-IsWeakOrder_example =
    instantiate-IsWeakOrder strong_ordering three_way promoted compiled three_way-IsWeakOrder
      (by_first-IsWeakOrder, tt) promoted_compiles
