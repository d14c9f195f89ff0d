-- ===== src/Variant.antt =====
-- include/yk/variant over std::variant: the dispatch of visit and get, and the visit of several
-- variants by visitors that keep what the variants visited before them held. An alternative type is
-- a number, a variant class the list of its alternatives, and an object of it stands in a store, so
-- that a reference into it can be written through.
use yk_util.Base.{
  ℕ, Bool, true, false, ◌||◌, List, [], ◌∷◌, get_elem?, Option, none, some, ◌==◌, if◌then◌else◌,
}
use yk_util.Compare.{Value, less, equivalent, greater}
use Prim.Native.Nat.{compare, Ordering}

-- An object of a variant class. An index past the alternatives is `variant_npos`, that of a variant
-- which an exception left valueless.
pub record StdVariant (A : Type 0) : Type 0 where
  pub index : ℕ
  pub value : A

-- The objects at their addresses.
abbrev pub Store : Type 0 → Type 0
Store A = ℕ → StdVariant A

-- `*pointer = variant`
abbrev pub assign : {A : Type 0} → ℕ → StdVariant A → Store A → Store A
assign pointer variant store = λ p. if p == pointer then variant else store p

-- How an access ends. `assertion_failed` is the end of an `assert`.
pub data Access (R : Type 0) : Type 0 where
  returned : R → Access R
  uninitialized_variant_view bad_variant_access assertion_failed : Access R

-- A reference to what the variant at `pointer` holds, of the type `type`.
pub record Reference : Type 0 where
  pub type : ℕ
  pub pointer : ℕ

abbrev pub ref : ℕ → ℕ → Reference
ref type pointer = record { type = type; pointer = pointer }

-- `std::is_same_v<Ts, T> || ...`
abbrev pub any_same : List ℕ → ℕ → Bool
any_same [] type = false
any_same (t ∷ ts) type = t == type || any_same ts type

module _ {A : Type 0} (alternatives : List ℕ) where
  -- The type of what a variant holds
  abbrev pub held : StdVariant A → Option ℕ
  held variant = get_elem? alternatives variant.index

  -- std::visit, for a visitor that reads and writes the store
  unfoldable pub std_visit :
      {R : Type 0} → (Reference → Store A → Store A × Access R) → ℕ → Store A → Store A × Access R
  std_visit visitor pointer store = elim (held (store pointer)) [
    | none ↦ (store, bad_variant_access)
    | some type ↦ visitor (ref type pointer) store
  ]

  -- std::holds_alternative
  unfoldable pub std_holds_alternative : ℕ → StdVariant A → Bool
  std_holds_alternative type variant = elim (held variant) [ none ↦ false | some t ↦ t == type ]

  -- std::get of a type
  unfoldable pub std_get : ℕ → ℕ → Store A → Access Reference
  unfolding std_holds_alternative
  std_get type pointer store =
      if std_holds_alternative type (store pointer)
      then returned (ref type pointer)
      else bad_variant_access

  -- std::get_if of a type
  unfoldable pub std_get_if : ℕ → ℕ → Store A → Option Reference
  unfolding std_holds_alternative
  std_get_if type pointer store =
      if std_holds_alternative type (store pointer) then some (ref type pointer) else none

module _ {A : Type 0} (alternatives : List ℕ) where
  -- `operator==` of std::variant, with the one of each alternative
  unfoldable pub std_equal : (ℕ → A → A → Bool) → StdVariant A → StdVariant A → Bool
  std_equal equal v w = elim (held alternatives v) [
    | none ↦ elim (held alternatives w) [ none ↦ true | some _ ↦ false ]
    | some type ↦ elim (held alternatives w) [
      | none ↦ false
      | some _ ↦ if v.index == w.index then equal type v.value w.value else false
    ]
  ]

  -- `operator<=>` of std::variant. A valueless variant is less than any other.
  unfoldable pub std_compare : (ℕ → A → A → Value) → StdVariant A → StdVariant A → Value
  std_compare three_way v w = elim (held alternatives v) [
    | none ↦ elim (held alternatives w) [ none ↦ equivalent | some _ ↦ less ]
    | some type ↦ elim (held alternatives w) [
      | none ↦ greater
      | some _ ↦ elim (compare v.index w.index) [
        | Ordering.lt ↦ less
        | Ordering.gt ↦ greater
        | Ordering.eq ↦ three_way type v.value w.value
      ]
    ]
  ]
