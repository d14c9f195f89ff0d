-- ===== src/Ranges/Concat.antt =====
-- include/yk/ranges/concat.hpp: `concat_view` over random access views, and its iterator. A view is
-- the list of its elements, and an iterator of it the number of elements before it. The outcome
-- `none` is a step out of the range of a view, which is undefined behaviour. A template on the
-- number N of a view that calls itself for N + 1 or N - 1 is a recursion on the views that are left.
use yk_util.Base.{
  ℕ, zero, suc, ◌+◌, ◌-◌, Bool, ◌&&◌, ◌||◌, List, [], ◌∷◌, Option, none, some, length, get_elem?,
  ltb, leb, ◌==◌, if◌then◌else◌,
}
pub mod Positions
pub mod Distances
pub mod Joined
pub mod Refines
mod Samples
use yk_util.Base.Int.{ℤ, pos, negsuc, sub_ℕ, -ℤ◌}

-- `iter_`: which alternative of the variant it is, and the iterator of that view.
pub record Iterator : Type 0 where
  pub index : ℕ
  pub iter : ℕ

module _ {A : Type 0} where
  -- `std::get<N>(parent_->views_)`
  unfoldable pub view : List (List A) → ℕ → List A
  view [] n = []
  view (v ∷ vs) zero = v
  view (v ∷ vs) (suc n) = view vs n

  -- The sizes of `len` views from `first` on, added up as the fold over an index range.
  unfoldable pub sum_sizes : List (List A) → ℕ → ℕ → ℕ
  sum_sizes vs first zero = 0
  sum_sizes vs first (suc len) = length (view vs first) + sum_sizes vs (first + 1) len

  module _ (vs : List (List A)) where
    -- `std::ranges::distance` of view N
    abbrev pub view_size : ℕ → ℕ
    view_size n = length (view vs n)

    -- `satisfy<N>`, where `left` views stand behind view N
    unfoldable pub satisfy : ℕ → ℕ → ℕ → Iterator
    satisfy zero n i = record { index = n; iter = i }
    satisfy (suc left) n i =
        let next = satisfy left (n + 1) 0 in
        if i == view_size n then next else record { index = n; iter = i }

    -- how many views stand behind view N
    abbrev pub behind : ℕ → ℕ
    behind n = length vs - 1 - n

    unfoldable pub begin : Iterator
    unfolding satisfy
    begin = satisfy (behind 0) 0 0

    unfoldable pub end : Iterator
    end = record { index = length vs - 1; iter = view_size (length vs - 1) }

    -- `iter += steps` of view N
    unfoldable pub forth : ℕ → ℕ → ℕ → Option Iterator
    forth n i steps =
        if leb (i + steps) (view_size n)
        then some (record { index = n; iter = i + steps })
        else none

    -- `iter -= steps` of view N
    unfoldable pub back : ℕ → ℕ → ℕ → Option Iterator
    back n i steps = if leb steps i then some (record { index = n; iter = i - steps }) else none

    -- `operator++`
    unfoldable pub increment : Iterator → Option Iterator
    unfolding satisfy
    increment it =
        if ltb it.iter (view_size it.index)
        then some (satisfy (behind it.index) it.index (it.iter + 1))
        else none

    unfoldable pub prev : ℕ → ℕ → Option Iterator
    unfolding back
    prev zero i = back 0 i 1
    prev (suc n) i = let rest = prev n (view_size n) in if i == 0 then rest else back (suc n) i 1

    -- `operator--`
    unfoldable pub decrement : Iterator → Option Iterator
    unfolding prev
    decrement it = prev it.index it.iter

    unfoldable pub advance_fwd : ℕ → ℕ → ℕ → ℕ → Option Iterator
    unfolding forth
    advance_fwd zero n offset steps = forth n offset steps
    advance_fwd (suc left) n offset steps =
        let rest = advance_fwd left (n + 1) 0 (offset + steps - view_size n) in
        if ltb (offset + steps) (view_size n) then forth n offset steps else rest

    unfoldable pub advance_bwd : ℕ → ℕ → ℕ → Option Iterator
    unfolding back
    advance_bwd zero offset steps = back 0 offset steps
    advance_bwd (suc n) offset steps =
        let rest = advance_bwd n (view_size n) (steps - offset) in
        if leb steps offset then back (suc n) offset steps else rest

    -- `operator+=`
    unfoldable pub add : Iterator → ℤ → Option Iterator
    unfolding advance_fwd advance_bwd
    add it (pos zero) = some it
    add it (pos (suc n)) = advance_fwd (behind it.index) it.index it.iter (suc n)
    add it (negsuc n) = advance_bwd it.index it.iter (suc n)

    -- `operator-=`
    unfoldable pub sub : Iterator → ℤ → Option Iterator
    unfolding add
    sub it n = add it (-ℤ n)

    -- the difference of two iterators, the first of which is in a later view
    unfoldable pub later : Iterator → Iterator → ℕ
    unfolding sum_sizes
    later x y =
        (view_size y.index - y.iter) + sum_sizes vs (y.index + 1) (x.index - y.index - 1) + x.iter

    unfoldable pub difference : Iterator → Iterator → ℤ
    unfolding later
    difference x y =
        if ltb y.index x.index
        then pos (later x y)
        else if ltb x.index y.index
        then -ℤ pos (later y x)
        else sub_ℕ x.iter y.iter

    -- `x - std::default_sentinel`
    unfoldable pub from_end : Iterator → ℤ
    unfolding sum_sizes
    from_end x =
        -ℤ pos
          ((view_size x.index - x.iter) + sum_sizes vs (x.index + 1) (length vs - (x.index + 1)))

    -- `x == std::default_sentinel`
    unfoldable pub is_end : Iterator → Bool
    is_end x = (x.index == length vs - 1) && (x.iter == view_size (length vs - 1))

    -- `operator*`
    unfoldable pub deref : Iterator → Option A
    deref it = get_elem? (view vs it.index) it.iter

    unfoldable pub at : Iterator → ℤ → Option A
    unfolding add deref
    at it n = elim (add it n) [ none ↦ none | some j ↦ deref j ]

    -- `size()`
    unfoldable pub size : ℕ
    unfolding sum_sizes
    size = sum_sizes vs 0 (length vs)

-- The relations of two variants: the alternatives first, then the iterators.
unfoldable pub equal : Iterator → Iterator → Bool
equal x y = (x.index == y.index) && (x.iter == y.iter)

unfoldable pub less : Iterator → Iterator → Bool
less x y = ltb x.index y.index || ((x.index == y.index) && ltb x.iter y.iter)
