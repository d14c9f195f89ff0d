-- ===== src/Ranges/Concat/Distances.antt =====
-- Sums of sizes, the order of iterators, and the joined sequence.
use native.Mathlib.Decide.{dec_lt}
use yk_util.Base.{
  ℕ, zero, suc, ◌+◌, ◌-◌, ◌≤◌, ◌<◌, ◌≡◌, ◌↔◌, ◌⊎◌, inl, inr, ap, true, List, length, arith, subst,
}
use yk_util.Base.Int.{sub_ℕ}
use yk_util.Ranges.Concat.{Iterator, sum_sizes, view_size, later, difference, equal, less}
use yk_util.Ranges.Concat.Positions.{before, position, IsValid}

module _ {A : Type 0} where
  module _ (vs : List (List A)) where
    pub sum_sizes-before : (n len : ℕ) → before vs n + sum_sizes vs n len ≡ before vs (n + len)
    unfolding sum_sizes before
    sum_sizes-before n zero = let e : n + 0 ≡ n = omega arith in rw e (omega arith)
    sum_sizes-before n (suc len) =
        let succ : n + 1 ≡ suc n = omega arith in
        let e : n + suc len ≡ n + 1 + len = omega arith in
        let q : before vs (n + 1) ≡ before vs n + view_size vs n = ap (before vs) succ in
        rw e (omega (arith, sum_sizes-before (n + 1) len))

    before_mono : (n m : ℕ) → n < m → before vs n + view_size vs n ≤ before vs m
    unfolding before
    before_mono n zero l = absurd (omega arith)
    before_mono n (suc m) l = elim (dec_lt n m) [
      | yes h ↦ omega (arith, before_mono n m h)
      | no h ↦
          let e : n ≡ m = omega arith in
          subst (λ m. before vs n + view_size vs n ≤ before vs m + view_size vs m) e (omega arith)
    ]

    pub position-le : (it : Iterator) → IsValid vs it → position vs it ≤ before vs (length vs)
    position-le it v = omega (arith, v.in_view, before_mono it.index (length vs) v.in_views)

    -- Of two iterators in different views, the one in the later view has the greater position.
    apart :
        (x y : Iterator)
        → IsValid vs x
        → x.index < y.index
        → IsValid vs y
        → position vs x < position vs y
    apart x y v l w =
        ground (arith, v.in_view, v.settled, w.in_views, before_mono x.index y.index l)

    cases :
        (x y : Iterator)
        → IsValid vs x
        → IsValid vs y
        → ((x.index < y.index) × (position vs x < position vs y))
          ⊎ ((x.index ≡ y.index) × (before vs x.index ≡ before vs y.index))
          ⊎ ((y.index < x.index) × (position vs y < position vs x))
    cases x y v w = elim (dec_lt x.index y.index) [
      | yes l ↦ inl (l, apart x y v l w)
      | no l ↦ elim (dec_lt y.index x.index) [
        | yes m ↦ inr (inr (m, apart y x w m v))
        | no m ↦ let e : x.index ≡ y.index = omega arith in inr (inl (e, ap (before vs) e))
      ]
    ]

    -- For two valid iterators, x < y exactly if the position of x in the joined sequence is
    -- below that of y.
    pub less_iff :
        (x y : Iterator)
        → IsValid vs x
        → IsValid vs y
        → (less x y ≡ true) ↔ (position vs x < position vs y)
    unfolding less
    less_iff x y v w = ground (arith, cases x y v w)

    pub equal_iff :
        (x y : Iterator)
        → IsValid vs x
        → IsValid vs y
        → (equal x y ≡ true) ↔ (position vs x ≡ position vs y)
    unfolding equal
    equal_iff x y v w = ground (arith, cases x y v w)

    pub later-position :
        (x y : Iterator)
        → IsValid vs x
        → IsValid vs y
        → y.index < x.index
        → position vs y + later vs x y ≡ position vs x
    unfolding later before
    later-position x y v w l =
        let succ : y.index + 1 ≡ suc y.index = omega arith in
        let q : before vs (y.index + 1) ≡ before vs y.index + view_size vs y.index =
          ap (before vs) succ in
        let e : y.index + 1 + (x.index - y.index - 1) ≡ x.index = omega arith in
        omega (
          arith,
          w.in_view,
          q,
          ap (before vs) e,
          sum_sizes-before (y.index + 1) (x.index - y.index - 1),
        )

    pub difference-position :
        (x y : Iterator)
        → IsValid vs x
        → IsValid vs y
        → difference vs x y ≡ sub_ℕ (position vs x) (position vs y)
    unfolding difference
    difference-position x y v w = elim (cases x y v w) [
      | inl (l, p) ↦ ground (arith, later-position y x w v l)
      | inr (inl (e, p)) ↦ ground arith
      | inr (inr (l, p)) ↦ ground (arith, later-position x y v w l)
    ]
