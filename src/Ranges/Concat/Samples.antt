-- ===== src/Ranges/Concat/Samples.antt =====
-- Three views, of which the second is empty.
use yk_util.Base.{ℕ, suc, ◌≡◌, refl, List, [], ◌∷◌, none, some, length, arith}
use yk_util.Base.Int.{negsuc}
use yk_util.Ranges.Concat.{Iterator, view, begin, increment, decrement, add, size}
use yk_util.Ranges.Concat.Positions.{flatten, position, IsValid, before}
use yk_util.Ranges.Concat.Refines.{walk, walk-flatten}

abbrev three : List (List ℕ)
three = (1 ∷ 2 ∷ []) ∷ [] ∷ (3 ∷ []) ∷ []

abbrev second : Iterator
second = record { index = 0; iter = 1 }

abbrev third : Iterator
third = record { index = 2; iter = 0 }

-- The step over the empty view, in both directions.
increment-second : increment three second ≡ some third
unfolding increment view
increment-second = refl

decrement-third : decrement three third ≡ some second
unfolding decrement view
decrement-third = refl

add-third : add three third (negsuc 1) ≡ some (record { index = 0; iter = 0 })
unfolding add view
add-third = refl

second-IsValid : IsValid three second
unfolding view
second-IsValid = record {
  in_views = omega arith;
  in_view = omega arith;
  settled = λ h. absurd (omega arith);
}

third-IsValid : IsValid three third
unfolding view
third-IsValid = record {
  in_views = omega arith;
  in_view = omega arith;
  settled = λ h. absurd (omega arith);
}

position-third : position three third ≡ 2
unfolding before view
position-third = refl

walk-flatten_example :
    (walk three (suc (size three)) (begin three) ≡ some (1 ∷ 2 ∷ 3 ∷ []))
    × (walk three (size three) (begin three) ≡ none)
    × (length (flatten three) ≡ size three)
walk-flatten_example = walk-flatten three (omega arith)
