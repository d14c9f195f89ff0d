-- ===== src/VariantView/Conversion.antt =====
-- Views that become views of other members.
use yk_util.Base.{ℕ, ◌≡◌, refl, true, List, [], ◌∷◌, some, arith, Option-cases, inl, inr, ==_refl}
use yk_util.Variant.{Store, Access, Reference, any_same, held, std_visit}
use yk_util.VariantView.{
  VariantView, is_in_variant_view, are_all_in_variant_view, is_class, all_alternatives, convert,
  subview, invalid, base_of, visit, superset_type_catcher,
}

module _ (alternatives : List ℕ) where
  -- A list of alternatives is in any view that has a superset of it as its members.
  all_in :
      (members types : List ℕ)
      → all_alternatives alternatives types ≡ true
      → ((type : ℕ) → any_same types type ≡ true → any_same members type ≡ true)
      → are_all_in_variant_view alternatives members types ≡ some true
  unfolding all_alternatives are_all_in_variant_view is_in_variant_view
  all_in members [] h k = refl
  all_in members (type ∷ types) h k = ground (
    arith,
    h,
    k type,
    ==_refl type,
    all_in members types (ground (arith, h)) (λ t e. k t (ground (arith, e))),
  )

  is_class-all :
      (types : List ℕ)
      → is_class alternatives types ≡ true
      → all_alternatives alternatives types ≡ true
  unfolding is_class
  is_class-all types h = ground (arith, h)

  -- A view of any members that are alternatives becomes a view of any other members that are,
  -- wider ones included, by subview.
  subview-any :
      (members : List ℕ) (view : VariantView)
      → is_class alternatives view.members ≡ true
      → is_class alternatives members ≡ true
      → subview alternatives members view ≡ some (record view { members = members })
  unfolding subview convert
  subview-any members view h k =
      ground
        (arith, h, k, all_in view.members view.members (is_class-all view.members h) (λ t e. e))

  -- Both views leave out what the other one lacks.
  narrowed_visits :
      {A R : Type 0} (members : List ℕ) (view : VariantView)
      (visitor : Reference → Store A → Store A × Access R) (store : Store A)
      → visit alternatives
          (superset_type_catcher alternatives view.members visitor)
          (record view { members = members })
          store
        ≡ visit alternatives (superset_type_catcher alternatives members visitor) view store
  unfolding visit superset_type_catcher std_visit invalid base_of
  narrowed_visits members view visitor store = elim (Option-cases view.base) [
    | inl n ↦ ground (arith, n)
    | inr (p, b) ↦ elim (Option-cases (held alternatives (store p))) [
      | inl d ↦ ground (arith, b, d)
      | inr (t, d) ↦ ground (arith, b, d)
    ]
  ]

  -- subview turns a view of any members that are alternatives into a view of any others that
  -- are, wider ones included; to visit it with what the members of the view let through is to
  -- visit the view with what the new members let through.
  pub subview_visits :
      {A R : Type 0} (members : List ℕ) (view : VariantView)
      (visitor : Reference → Store A → Store A × Access R) (store : Store A)
      → is_class alternatives view.members ≡ true
      → is_class alternatives members ≡ true
      → (subview alternatives members view ≡ some (record view { members = members }))
        × (visit alternatives
              (superset_type_catcher alternatives view.members visitor)
              (record view { members = members })
              store
            ≡ visit alternatives (superset_type_catcher alternatives members visitor) view store)
  subview_visits members view visitor store h k =
      (subview-any members view h k, narrowed_visits members view visitor store)
