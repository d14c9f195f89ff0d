-- ===== src/VariantView.antt =====
-- include/yk/variant_view over std::variant: a view of some of the alternatives of a variant, which
-- points to it. A class of views is its member types and whether its variant is const; what the
-- compiler checks on these, it computes to `none` or false here.
pub mod Agreement
pub mod Conversion
pub mod Order
pub mod Several
mod Samples
use yk_util.Base.{
  ℕ, Bool, true, false, not, ◌&&◌, ◌||◌, List, [], ◌∷◌, length, get_elem?, Option, none, some, ◌==◌,
  if◌then◌else◌,
}
use yk_util.Compare.{Value, less, equivalent, greater}
use yk_util.Variant.{
  Store, Access, returned, uninitialized_variant_view, bad_variant_access, assertion_failed,
  Reference, any_same, std_visit, std_holds_alternative, std_get, std_get_if, std_equal,
  std_compare,
}

-- `variant_view<Variant, Ts...>`, where `base` is `base_`.
pub record VariantView : Type 0 where
  pub is_const : Bool
  pub members : List ℕ
  pub base : Option ℕ

-- `is_in_variant_view`: a test that may not compile, since the type must be one of the variant's.
unfoldable pub is_in_variant_view : List ℕ → List ℕ → ℕ → Option Bool
is_in_variant_view alternatives members type =
    if any_same alternatives type then some (any_same members type) else none

-- `are_all_in_variant_view<variant_view<Variant, members...>, types...>`, which stops at a false one.
unfoldable pub are_all_in_variant_view : List ℕ → List ℕ → List ℕ → Option Bool
unfolding is_in_variant_view
are_all_in_variant_view alternatives members [] = some true
are_all_in_variant_view alternatives members (type ∷ types) =
    let rest = are_all_in_variant_view alternatives members types in
    elim (is_in_variant_view alternatives members type) [
      | none ↦ none
      | some false ↦ some false
      | some true ↦ rest
    ]

-- The assertions of the class on its members: there is one, and each is an alternative.
unfoldable pub all_alternatives : List ℕ → List ℕ → Bool
all_alternatives alternatives [] = true
all_alternatives alternatives (type ∷ types) =
    any_same alternatives type && all_alternatives alternatives types

unfoldable pub is_class : List ℕ → List ℕ → Bool
unfolding all_alternatives
is_class alternatives [] = false
is_class alternatives (type ∷ types) = all_alternatives alternatives (type ∷ types)

-- The default constructor
abbrev pub invalid_view : Bool → List ℕ → VariantView
invalid_view is_const members = record { is_const = is_const; members = members; base = none }

-- `make_variant_view` and the constructors from a variant
abbrev pub make_variant_view : Bool → List ℕ → ℕ → VariantView
make_variant_view is_const members pointer = record {
  is_const = is_const;
  members = members;
  base = some pointer;
}

unfoldable pub invalid : VariantView → Bool
invalid view = elim view.base [ none ↦ true | some _ ↦ false ]

-- The constructor from a view of other members. A view of a const variant does not become a view
-- that could write to it.
unfoldable pub convert : List ℕ → Bool → List ℕ → VariantView → Option VariantView
unfolding are_all_in_variant_view is_class
convert alternatives is_const members other =
    if is_class alternatives members && (is_const || not other.is_const)
    then elim (are_all_in_variant_view alternatives other.members other.members) [
      | some true ↦ some (record { is_const = is_const; members = members; base = other.base })
      | _ ↦ none
    ]
    else none

-- `subview`
unfoldable pub subview : List ℕ → List ℕ → VariantView → Option VariantView
unfolding convert
subview alternatives members view = convert alternatives view.is_const members view

-- `operator=` from a view of other members. The template takes a view of the variant that is not
-- const; a view of the const variant is converted by the constructor, and then copied.
unfoldable pub assign_view : List ℕ → VariantView → VariantView → Option VariantView
unfolding convert
assign_view alternatives view other =
    if other.is_const
    then elim (convert alternatives view.is_const view.members other) [
      | none ↦ none
      | some converted ↦ some (record view { base = converted.base })
    ]
    else some (record view { base = other.base })

unfoldable pub swap : VariantView → VariantView → VariantView × VariantView
swap view other = (record view { base = other.base }, record other { base = view.base })

-- `base()`
unfoldable pub base_of : VariantView → Access ℕ
base_of view = elim view.base [ none ↦ assertion_failed | some pointer ↦ returned pointer ]

module _ {A : Type 0} (alternatives : List ℕ) where
  -- The index of the base variant
  unfoldable pub index : VariantView → Store A → Access ℕ
  unfolding base_of
  index view store = elim (base_of view) [
    | returned pointer ↦ returned (store pointer).index
    | uninitialized_variant_view ↦ uninitialized_variant_view
    | bad_variant_access ↦ bad_variant_access
    | assertion_failed ↦ assertion_failed
  ]

  -- The visitor that takes what the view's members leave out
  unfoldable pub superset_type_catcher :
      {R : Type 0}
      → List ℕ
      → (Reference → Store A → Store A × Access R)
      → Reference
      → Store A
      → Store A × Access R
  superset_type_catcher members visitor x store =
      if any_same members x.type then visitor x store else (store, bad_variant_access)

  -- `apply_visit`
  unfoldable pub visit :
      {R : Type 0}
      → (Reference → Store A → Store A × Access R)
      → VariantView
      → Store A
      → Store A × Access R
  unfolding superset_type_catcher std_visit invalid base_of
  visit visitor view store =
      if invalid view then (store, uninitialized_variant_view) else elim (base_of view) [
        | returned pointer ↦
            std_visit alternatives (superset_type_catcher view.members visitor) pointer store
        | uninitialized_variant_view ↦ (store, uninitialized_variant_view)
        | bad_variant_access ↦ (store, bad_variant_access)
        | assertion_failed ↦ (store, assertion_failed)
      ]

  -- `apply_get` of a type
  unfoldable pub get : ℕ → VariantView → Store A → Access Reference
  unfolding std_get invalid base_of
  get type view store = if invalid view then uninitialized_variant_view else elim (base_of view) [
    | returned pointer ↦ std_get alternatives type pointer store
    | uninitialized_variant_view ↦ uninitialized_variant_view
    | bad_variant_access ↦ bad_variant_access
    | assertion_failed ↦ assertion_failed
  ]

  -- `apply_get` of an index among the members. An index past them does not compile.
  unfoldable pub get_at : ℕ → VariantView → Store A → Option (Access Reference)
  unfolding get
  get_at i view store = elim (get_elem? view.members i) [
    | none ↦ none
    | some type ↦ some (get type view store)
  ]

  -- `apply_get` of a type from a pointer to a view, where `none` is null
  unfoldable pub get_if : ℕ → Option VariantView → Store A → Option Reference
  unfolding std_get_if
  get_if type none store = none
  get_if type (some view) store = elim view.base [
    | none ↦ none
    | some pointer ↦ std_get_if alternatives type pointer store
  ]

  unfoldable pub holds_alternative : ℕ → VariantView → Store A → Bool
  unfolding std_holds_alternative
  holds_alternative type view store = elim view.base [
    | none ↦ false
    | some pointer ↦ std_holds_alternative alternatives type (store pointer)
  ]

  -- `operator*` and `operator->`, which only a view of one member has
  unfoldable pub dereference : VariantView → Store A → Option (Access Reference)
  unfolding get_at invalid
  dereference view store =
      if not (length view.members == 1)
      then none
      else if invalid view
      then some uninitialized_variant_view
      else get_at 0 view store

  unfoldable pub get_if_at : ℕ → VariantView → Store A → Option Reference
  unfolding get_if
  get_if_at i view store = elim (get_elem? view.members i) [
    | none ↦ none
    | some type ↦ get_if type (some view) store
  ]

  unfoldable pub arrow : VariantView → Store A → Option (Access Reference)
  unfolding get_if_at invalid
  arrow view store =
      if not (length view.members == 1)
      then none
      else if invalid view
      then some uninitialized_variant_view
      else elim (get_if_at 0 view store) [
        | none ↦ some bad_variant_access
        | some x ↦ some (returned x)
      ]

  -- `operator bool`, likewise
  unfoldable pub to_bool : VariantView → Store A → Option Bool
  unfolding get_if_at invalid
  to_bool view store =
      if not (length view.members == 1)
      then none
      else some
          (not (invalid view) && elim (get_if_at 0 view store) [ none ↦ false | some _ ↦ true ])

module _ {A : Type 0} (alternatives : List ℕ) where
  -- `operator==`. Both views have the same members.
  unfoldable pub equal_to : (ℕ → A → A → Bool) → VariantView → VariantView → Store A → Bool
  unfolding std_equal
  equal_to equal view other store = elim view.base [
    | none ↦ elim other.base [ none ↦ true | some _ ↦ false ]
    | some p ↦ elim other.base [
      | none ↦ false
      | some q ↦ std_equal alternatives equal (store p) (store q)
    ]
  ]

  -- `operator<=>`
  unfoldable pub three_way_compare :
      (ℕ → A → A → Value) → VariantView → VariantView → Store A → Value
  unfolding std_compare
  three_way_compare three_way view other store = elim view.base [
    | none ↦ elim other.base [ none ↦ equivalent | some _ ↦ less ]
    | some p ↦ elim other.base [
      | none ↦ greater
      | some q ↦ std_compare alternatives three_way (store p) (store q)
    ]
  ]

  -- `operator<=>` with a variant
  unfoldable pub compare_variant : (ℕ → A → A → Value) → VariantView → ℕ → Store A → Value
  unfolding three_way_compare
  compare_variant three_way view other store =
      three_way_compare three_way view (make_variant_view true view.members other) store
