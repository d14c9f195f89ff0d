-- ===== src/VariantView/Samples.antt =====
-- A variant of three types, of which two views have the last two.
use yk_util.Base.{
  ℕ, zero, suc, ◌≤◌, ◌≡◌, refl, ◌↔◌, true, false, List, [], ◌∷◌, none, some, length, ◌+◌, ◌==◌, ltb,
  if◌then◌else◌, arith,
}
use yk_util.Compare.{Value, less, equivalent, greater, is_eq}
use yk_util.Compare.Laws.{IsWeakOrder}
use yk_util.Variant.{
  Store, Access, returned, bad_variant_access, Reference, ref, assign, std_visit, std_get,
  std_holds_alternative,
}
use yk_util.VariantView.{
  VariantView, make_variant_view, invalid_view, invalid, index, visit, get, get_at, subview,
  holds_alternative, dereference, arrow, to_bool, base_of, all_alternatives, is_class,
  three_way_compare, equal_to, superset_type_catcher, assign_view, swap, convert,
  are_all_in_variant_view, is_in_variant_view,
}
use yk_util.VariantView.Agreement.{
  GetEnds, accessors_agree, visit-first, first_or, exception, pointer_operators,
}
use yk_util.VariantView.Conversion.{subview_visits}
use yk_util.VariantView.Order.{comparisons_agree}
use yk_util.VariantView.Several.{variant, view, function, compiles, compiles-at_most_two}

abbrev alternatives : List ℕ
alternatives = 3 ∷ 4 ∷ 5 ∷ []

abbrev members : List ℕ
members = 4 ∷ 5 ∷ []

-- The object at 0 holds 7 as the middle type, the others hold 8 as the first.
abbrev objects : Store ℕ
objects zero = record { index = 1; value = 7 }
objects (suc p) = record { index = 0; value = 8 }

abbrev first_view : VariantView
first_view = make_variant_view false members 0

abbrev second_view : VariantView
second_view = make_variant_view false members 1

abbrev increment : Reference → Store ℕ → Store ℕ × Access ℕ
increment x store = (
  assign x.pointer (record { index = (store x.pointer).index; value = suc (store x.pointer).value })
      store,
  returned (store x.pointer).value,
)

-- A write through the reference that a view passes on is a write to the variant.
written : (visit alternatives increment first_view objects).0 0 ≡ record { index = 1; value = 8 }
unfolding visit superset_type_catcher std_visit invalid base_of
written = refl

left_out : visit alternatives increment second_view objects ≡ (objects, bad_variant_access)
unfolding visit superset_type_catcher std_visit invalid base_of
left_out = refl

-- The index is that of the variant, and counts other types than the members.
indices_differ :
    (index alternatives first_view objects ≡ returned 1)
    × (get_at alternatives 1 first_view objects ≡ some bad_variant_access)
    × (get_at alternatives 0 first_view objects ≡ some (returned (ref 4 0)))
unfolding index base_of get_at get std_get std_holds_alternative invalid
indices_differ = (refl, refl, refl)

-- get of a type looks past the members.
outside : get alternatives 3 second_view objects ≡ returned (ref 3 1)
unfolding get std_get std_holds_alternative invalid base_of
outside = refl

swapped : (swap first_view second_view).0.base ≡ some 1
unfolding swap
swapped = refl

-- Between views of the const variant, and from a view of more types to one of fewer.
abbrev const_view : VariantView
const_view = make_variant_view true members 0

abbrev const_wide_view : VariantView
const_wide_view = make_variant_view true alternatives 1

assigned :
    (assign_view alternatives first_view second_view ≡ some second_view)
    × (assign_view alternatives const_view const_wide_view
        ≡ some (record const_view { base = some 1 }))
    × (assign_view alternatives first_view const_wide_view ≡ none)
unfolding assign_view convert is_class all_alternatives are_all_in_variant_view is_in_variant_view
assigned = (refl, refl, refl)

accessors_agree_example :
    GetEnds alternatives first_view objects 4 (get alternatives 4 first_view objects)
accessors_agree_example = accessors_agree alternatives first_view objects 4

visit-first_example :
    visit alternatives increment first_view objects
    ≡ first_or alternatives first_view objects
        (objects, exception alternatives first_view objects)
        (λ x. increment x objects)
visit-first_example = visit-first alternatives first_view objects increment

pointer_operators_hold :
    (dereference alternatives (make_variant_view false (4 ∷ []) 0) objects
      ≡ some (get alternatives 4 (make_variant_view false (4 ∷ []) 0) objects))
    × (arrow alternatives (make_variant_view false (4 ∷ []) 0) objects
        ≡ some (get alternatives 4 (make_variant_view false (4 ∷ []) 0) objects))
    × (to_bool alternatives (make_variant_view false (4 ∷ []) 0) objects
        ≡ some (holds_alternative alternatives 4 (make_variant_view false (4 ∷ []) 0) objects))
pointer_operators_hold =
    pointer_operators alternatives (make_variant_view false (4 ∷ []) 0) objects 4 refl

members_are_class : is_class alternatives members ≡ true
unfolding is_class all_alternatives
members_are_class = refl

-- The view of two types becomes one of all three.
widened : is_class alternatives alternatives ≡ true
unfolding is_class all_alternatives
widened = refl

subview_visits_example :
    (subview alternatives alternatives first_view
      ≡ some (record first_view { members = alternatives }))
    × (visit alternatives
          (superset_type_catcher alternatives members increment)
          (record first_view { members = alternatives })
          objects
        ≡ visit alternatives
            (superset_type_catcher alternatives alternatives increment)
            first_view
            objects)
subview_visits_example =
    subview_visits alternatives alternatives first_view increment objects members_are_class widened

abbrev three_way : ℕ → ℕ → ℕ → Value
three_way type x y = if ltb x y then less else if ltb y x then greater else equivalent

three_way-IsWeakOrder : (type : ℕ) → IsWeakOrder (three_way type)
three_way-IsWeakOrder type = record {
  total = λ x y. ground arith;
  flips = λ x y. ground arith;
  trans = λ x y z p q. ground (arith, p, q);
}

comparisons_agree_example :
    IsWeakOrder (λ v w. three_way_compare alternatives three_way v w objects)
    × ((v w : VariantView)
        → (equal_to alternatives (λ type. ◌==◌) v w objects
            ≡ is_eq (three_way_compare alternatives three_way v w objects))
          × (three_way_compare alternatives three_way (invalid_view false v.members) w objects
              ≡ (if invalid w then equivalent else less)))
comparisons_agree_example =
    comparisons_agree alternatives (λ type. ◌==◌) three_way three_way-IsWeakOrder
      (λ type x y. ground arith) objects

abbrev both : List Reference → Store ℕ → Store ℕ × Access (List Reference)
both xs store = (store, returned xs)

compiles-at_most_two_example :
    (compiles (function 3 both) (variant 0) (variant 1 ∷ view first_view ∷ []) ≡ true)
    ↔ ((1 + length (variant 1 ∷ view first_view ∷ []) ≡ 3) × (3 ≤ 2))
compiles-at_most_two_example =
    compiles-at_most_two 3 both (variant 0) (variant 1 ∷ view first_view ∷ [])
