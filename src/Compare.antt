-- ===== src/Compare.antt =====
-- include/yk/compare: comparators that return an ordering of the standard library, and the objects
-- that put them together. What the compiler decides on types, the category of a result and whether a
-- call of a comparator is well formed, is computed here with the call.
pub mod Laws
pub mod Then
mod Samples
use yk_util.Base.{Bool, true, false, not, ◌||◌, Option, none, some, if◌then◌else◌}

-- std::strong_ordering, std::weak_ordering, std::partial_ordering
pub data Category : Type 0 where
  strong_ordering weak_ordering partial_ordering : Category

-- Their values. Only a partial ordering can be `unordered`.
pub data Value : Type 0 where
  less equivalent greater unordered : Value

-- `res == less`, `res == 0`, ...
abbrev pub is_lt : Value → Bool
is_lt less = true
is_lt _ = false

abbrev pub is_eq : Value → Bool
is_eq equivalent = true
is_eq _ = false

abbrev pub is_gt : Value → Bool
is_gt greater = true
is_gt _ = false

abbrev pub is_unordered : Value → Bool
is_unordered unordered = true
is_unordered _ = false

abbrev pub same_as : Category → Category → Bool
same_as strong_ordering strong_ordering = true
same_as weak_ordering weak_ordering = true
same_as partial_ordering partial_ordering = true
same_as _ _ = false

-- std::common_comparison_category
abbrev pub common : Category → Category → Category
common partial_ordering d = partial_ordering
common weak_ordering partial_ordering = partial_ordering
common weak_ordering d = weak_ordering
common strong_ordering d = d

-- `is_promotable`
unfoldable pub is_promotable : Category → Category → Bool
is_promotable partial_ordering partial_ordering = true
is_promotable partial_ordering weak_ordering = true
is_promotable partial_ordering strong_ordering = true
is_promotable weak_ordering weak_ordering = true
is_promotable weak_ordering strong_ordering = true
is_promotable _ _ = false

-- `then_comparator`, from the results of its parts
unfoldable pub then_result : Value → Value → Value
then_result res second = if is_eq res then second else res

-- `promote_comparator`, likewise
unfoldable pub promote_result : Category → Category → Value → Value → Value
promote_result from to res second =
    if same_as from to
    then (if same_as from partial_ordering
        then (if is_eq res || is_unordered res then second else res)
        else (if is_eq res then second else res))
    else (if is_lt res then less else if is_gt res then greater else second)

-- The comparators, as their types are built, with keys of type K.
pub data Comparator (A K : Type 0) : Type 0 where
  wrapper_comparator : Category → (A → A → Value) → Comparator A K
  then_comparator promote_comparator : Comparator A K → Comparator A K → Comparator A K
  extract_comparator : (A → K) → Comparator A K

-- What a user passes: a binary function or a comparator.
pub data Callable (A K : Type 0) : Type 0 where
  function : Category → (A → A → Value) → Callable A K
  comparator : Comparator A K → Callable A K

-- `comparator_adaptor_closure`, as its types are built.
pub data Closure (A K : Type 0) : Type 0 where
  comp_then_closure promote_closure : Callable A K → Closure A K
  pipe_closure : Closure A K → Closure A K → Closure A K

-- The call operator of a comparator with the category of its result.
pub record Call (A : Type 0) : Type 0 where
  pub category : Category
  pub run : A → A → Value

module _ {A K : Type 0} where
  -- `comparators::wrap`
  unfoldable pub wrap : Callable A K → Comparator A K
  wrap (function category f) = wrapper_comparator category f
  wrap (comparator c) = c

  -- The call operator of a closure, and `comp | closure`
  unfoldable pub apply : Closure A K → Callable A K → Comparator A K
  unfolding wrap
  apply (comp_then_closure second) first = then_comparator (wrap first) (wrap second)
  apply (promote_closure second) first = promote_comparator (wrap first) (wrap second)
  apply (pipe_closure lhs rhs) first = apply rhs (comparator (apply lhs first))

  -- `comp | f` for a function to the key
  unfoldable pub then_extract : Comparator A K → (A → K) → Comparator A K
  then_extract comp f = then_comparator comp (extract_comparator f)

  -- `extract(f) | rac`, where `rac` maps a key to a key
  unfoldable pub compose_key : (A → K) → (K → K) → Comparator A K
  compose_key f rac = extract_comparator (λ x. rac (f x))

module _ {A : Type 0} where
  unfoldable pub then_call : Call A → Call A → Call A
  unfolding then_result
  then_call c d = record {
    category = common c.category d.category;
    run = λ x y. then_result (c.run x y) (d.run x y);
  }

  -- The other overload is deleted, so a call that may not be promoted does not compile.
  unfoldable pub promote_call : Call A → Call A → Option (Call A)
  unfolding promote_result
  promote_call c d =
      if is_promotable c.category d.category
      then some (record {
        category = d.category;
        run = λ x y. promote_result c.category d.category (c.run x y) (d.run x y);
      })
      else none

  -- A comparator of two others can be called if they can be, and their results go together.
  abbrev pub both :
      (Call A → Call A → Option (Call A)) → Option (Call A) → Option (Call A) → Option (Call A)
  both f (some c) (some d) = f c d
  both f _ _ = none

  -- `std::compare_three_way` on keys is a parameter, with the category of its results.
  module _ {K : Type 0} (key_category : Category) (three_way : K → K → Value) where
    unfoldable pub instantiate : Comparator A K → Option (Call A)
    unfolding then_call promote_call
    instantiate (wrapper_comparator category f) = some (record { category = category; run = f })
    instantiate (then_comparator comp1 comp2) =
        both (λ c d. some (then_call c d)) (instantiate comp1) (instantiate comp2)
    instantiate (promote_comparator comp1 comp2) =
        both promote_call (instantiate comp1) (instantiate comp2)
    instantiate (extract_comparator f) =
        some (record { category = key_category; run = λ x y. three_way (f x) (f y) })

-- `compare::then` and `compare::then_with` of two results, the second of which may be computed.
unfoldable pub pipe_then : Value → Value → Value
pipe_then lhs value = if is_eq lhs then value else lhs

unfoldable pub pipe_then_with : Value → (Unit {0} → Value) → Value
pipe_then_with lhs func = if is_eq lhs then func tt else lhs
