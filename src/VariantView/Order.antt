-- ===== src/VariantView/Order.antt =====
-- The comparisons of views.
use yk_util.Base.{ℕ, ap, get_elem?, ◌≡◌, Bool, false, List, none, some, if◌then◌else◌, arith}
use yk_util.Compare.{Value, less, equivalent, is_eq}
use yk_util.Compare.Laws.{IsWeakOrder}
use yk_util.Variant.{StdVariant, Store, held, std_compare, std_equal}
use yk_util.VariantView.{VariantView, equal_to, invalid, invalid_view, three_way_compare}

module _ {A : Type 0} (alternatives : List ℕ) (equal : ℕ → A → A → Bool)
    (three_way : ℕ → A → A → Value) (order : (type : ℕ) → IsWeakOrder (three_way type))
    (same : (type : ℕ) (x y : A) → equal type x y ≡ is_eq (three_way type x y)) where
  same_held : (v w : StdVariant A) → v.index ≡ w.index → held alternatives v ≡ held alternatives w
  same_held v w e = ap (get_elem? alternatives) e

  abbrev type_of : StdVariant A → ℕ
  type_of v = elim (held alternatives v) [ none ↦ 0 | some type ↦ type ]

  std_compare-IsWeakOrder : IsWeakOrder (std_compare alternatives three_way)
  unfolding std_compare
  std_compare-IsWeakOrder = record {
    total = λ v w. ground (arith, (order (type_of v)).total v.value w.value);
    flips = λ v w. ground (arith, (order (type_of v)).flips v.value w.value, same_held v w);
    trans = λ u v w p q. ground (
      arith,
      p,
      q,
      (order (type_of u)).trans u.value v.value w.value,
      same_held u v,
      same_held v w,
    );
  }

  std_equal-compare :
      (v w : StdVariant A)
      → std_equal alternatives equal v w ≡ is_eq (std_compare alternatives three_way v w)
  unfolding std_equal std_compare
  std_equal-compare v w = ground (arith, same (type_of v) v.value w.value)

  abbrev viewed : VariantView → Store A → StdVariant A
  viewed view store = elim view.base [ none ↦ store 0 | some pointer ↦ store pointer ]

  three_way_compare-IsWeakOrder :
      (store : Store A)
      → IsWeakOrder (λ view other. three_way_compare alternatives three_way view other store)
  unfolding three_way_compare
  three_way_compare-IsWeakOrder store = record {
    total = λ v w. ground (arith, std_compare-IsWeakOrder.total (viewed v store) (viewed w store));
    flips = λ v w. ground (arith, std_compare-IsWeakOrder.flips (viewed v store) (viewed w store));
    trans = λ u v w p q. ground (
      arith,
      p,
      q,
      std_compare-IsWeakOrder.trans (viewed u store) (viewed v store) (viewed w store),
    );
  }

  equal_to-compare :
      (view other : VariantView) (store : Store A)
      → equal_to alternatives equal view other store
        ≡ is_eq (three_way_compare alternatives three_way view other store)
  unfolding equal_to three_way_compare
  equal_to-compare view other store =
      ground (arith, std_equal-compare (viewed view store) (viewed other store))

  -- For alternatives that compare along weak orders and whose == agrees with these, operator<=>
  -- of views of one class is a weak order, also with invalid views and valueless variants,
  -- operator== holds exactly where it is equivalent, and an invalid view is equivalent to
  -- invalid views and less than all others.
  pub comparisons_agree :
      (store : Store A)
      → IsWeakOrder (λ view other. three_way_compare alternatives three_way view other store)
        × ((view other : VariantView)
            → (equal_to alternatives equal view other store
                ≡ is_eq (three_way_compare alternatives three_way view other store))
              × (three_way_compare alternatives three_way
                    (invalid_view false view.members)
                    other
                    store
                  ≡ (if invalid other then equivalent else less)))
  unfolding three_way_compare invalid
  comparisons_agree store = (
    three_way_compare-IsWeakOrder store,
    λ view other. (equal_to-compare view other store, ground arith),
  )
