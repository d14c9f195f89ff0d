-- ===== src/VariantView/Agreement.antt =====
-- What the accessors of a view say of one variant: visit, get, get from a pointer,
-- holds_alternative and the pointer operators.
use yk_util.Base.{
  ℕ, ◌≡◌, refl, true, false, List, [], ◌∷◌, Option, none, some, if◌then◌else◌, arith, Option-cases,
  inl, inr,
}
use yk_util.Variant.{
  Store, Access, returned, uninitialized_variant_view, bad_variant_access, Reference, ref, any_same,
  held, std_visit, std_holds_alternative, std_get, std_get_if,
}
use yk_util.VariantView.{
  VariantView, invalid, base_of, visit, superset_type_catcher, get, get_at, get_if, get_if_at,
  holds_alternative, dereference, arrow, to_bool,
}

module _ {A : Type 0} (alternatives : List ℕ) (view : VariantView) (store : Store A) where
  -- How get of a type ends, from the tests that throw nothing.
  abbrev pub GetEnds : ℕ → Access Reference → Type 0
  GetEnds type (returned x) =
      (get_if alternatives type (some view) store ≡ some x)
      × (holds_alternative alternatives type view store ≡ true)
      × (invalid view ≡ false)
  GetEnds type uninitialized_variant_view =
      (get_if alternatives type (some view) store ≡ none)
      × (holds_alternative alternatives type view store ≡ false)
      × (invalid view ≡ true)
  GetEnds type bad_variant_access =
      (get_if alternatives type (some view) store ≡ none)
      × (holds_alternative alternatives type view store ≡ false)
      × (invalid view ≡ false)
  GetEnds type _ = ⊥

  -- get of a type returns a reference exactly where get from a pointer gives the same one and
  -- holds_alternative is true, throws uninitialized_variant_view exactly for an invalid view,
  -- throws bad_variant_access exactly for a valid view that does not hold the type, and never
  -- fails the assertion of base.
  pub accessors_agree : (type : ℕ) → GetEnds type (get alternatives type view store)
  unfolding get get_if holds_alternative invalid base_of std_get std_get_if std_holds_alternative
  accessors_agree type = ground arith

  -- The reference that get from a pointer gives for the first of some types that has one.
  abbrev pub first_of : List ℕ → Option Reference
  first_of [] = none
  first_of (type ∷ types) = elim (get_if alternatives type (some view) store) [
    | none ↦ first_of types
    | some x ↦ some x
  ]

  -- What the first of the members gives, `else` where none does
  abbrev pub first_or : {C : Type 0} → C → (Reference → C) → C
  first_or e f = elim (first_of view.members) [ none ↦ e | some x ↦ f x ]

  abbrev pub exception : {R : Type 0} → Access R
  exception = if invalid view then uninitialized_variant_view else bad_variant_access

  first_of-invalid : (types : List ℕ) → view.base ≡ none → first_of types ≡ none
  unfolding get_if
  first_of-invalid [] e = refl
  first_of-invalid (type ∷ types) e = ground (arith, e, first_of-invalid types e)

  first_of-held :
      (types : List ℕ) (p t : ℕ)
      → view.base ≡ some p
      → held alternatives (store p) ≡ some t
      → first_of types ≡ (if any_same types t then some (ref t p) else none)
  unfolding get_if std_get_if std_holds_alternative
  first_of-held [] p t e d = refl
  first_of-held (type ∷ types) p t e d = ground (arith, e, d, first_of-held types p t e d)

  first_of-valueless :
      (types : List ℕ) (p : ℕ)
      → view.base ≡ some p
      → held alternatives (store p) ≡ none
      → first_of types ≡ none
  unfolding get_if std_get_if std_holds_alternative
  first_of-valueless [] p e d = refl
  first_of-valueless (type ∷ types) p e d = ground (arith, e, d, first_of-valueless types p e d)

  -- Visiting a view is the same as asking get from a pointer for each of its members in turn and
  -- calling the visitor with the first reference that this gives: where none is given the
  -- visitor is not called, the store is as before, and the exception is
  -- uninitialized_variant_view for an invalid view and bad_variant_access otherwise.
  pub visit-first :
      {R : Type 0} (visitor : Reference → Store A → Store A × Access R)
      → visit alternatives visitor view store ≡ first_or (store, exception) (λ x. visitor x store)
  unfolding visit superset_type_catcher std_visit invalid base_of
  visit-first visitor = elim (Option-cases view.base) [
    | inl e ↦ ground (arith, e, first_of-invalid view.members e)
    | inr (p, e) ↦ elim (Option-cases (held alternatives (store p))) [
      | inl d ↦ ground (arith, e, d, first_of-valueless view.members p e d)
      | inr (t, d) ↦ ground (arith, e, d, first_of-held view.members p t e d)
    ]
  ]

  pub pointer_operators :
      (member : ℕ)
      → view.members ≡ member ∷ []
      → (dereference alternatives view store ≡ some (get alternatives member view store))
        × (arrow alternatives view store ≡ some (get alternatives member view store))
        × (to_bool alternatives view store
            ≡ some (holds_alternative alternatives member view store))
  unfolding dereference arrow to_bool get_at get_if_at get get_if holds_alternative invalid base_of
      std_get std_get_if std_holds_alternative
  pointer_operators member e = ground (arith, e)
