-- ===== src/Functional/Arity.antt =====
-- is_n_ary_function against the number of arguments that `std::invoke` takes.
use yk_util.Base.{
  ℕ, ◌+◌, ◌≡◌, ◌↔◌, Bool, true, false, not, [], ◌∷◌, Option, none, some, ◌==◌, arith,
}
use yk_util.Functional.{
  CppType, function, member_function, data_member, class_type, MemberFunction, no_ref, arity_of,
  member_traits, invocable_traits, is_n_ary_function, is_n_ary_function_impl,
}

-- How many arguments a call takes, if it is one number: a member function takes its object besides.
abbrev pub invoke_arity : CppType → Option ℕ
invoke_arity (function form parameters is_noexcept) = some parameters
invoke_arity (member_function m) = some (1 + m.parameters)
invoke_arity data_member = some 1
invoke_arity (class_type (m ∷ []) arity) = some m.parameters
invoke_arity _ = none

-- A member function with a reference qualifier and parameters.
abbrev pub is_mistaken : MemberFunction → Bool
is_mistaken m = elim m.ref [ no_ref ↦ false | _ ↦ not (m.parameters == 0) ]

abbrev pub is_recognized : CppType → Bool
is_recognized (function form parameters is_noexcept) = not is_noexcept
is_recognized (member_function m) = not (is_mistaken m)
is_recognized (class_type (m ∷ []) arity) = not (is_mistaken m)
is_recognized _ = true

recognized-at :
    (f : CppType) (a n : ℕ)
    → invoke_arity f ≡ some a
    → arity_of f ≡ none
    → is_recognized f ≡ true
    → is_n_ary_function f n ≡ some (n == a)
unfolding is_n_ary_function invocable_traits member_traits is_n_ary_function_impl
recognized-at f a n e h r = ground (arith, e, h, r)

recognized-from :
    (f : CppType) (a : ℕ)
    → invoke_arity f ≡ some a
    → arity_of f ≡ none
    → is_n_ary_function f a ≡ some (a == a)
    → is_recognized f ≡ true
unfolding is_n_ary_function invocable_traits member_traits is_n_ary_function_impl
recognized-from f a e h r = ground (arith, e, h, r)

-- For a type without a constant arity that is called with one number of arguments,
-- is_n_ary_function tells that number, for every number it is asked for, exactly if the type is
-- no noexcept function and, where a reference qualifies its member function or call operator,
-- that has no parameters.
pub is_n_ary_function_iff :
    (f : CppType) (a : ℕ)
    → invoke_arity f ≡ some a
    → arity_of f ≡ none
    → (is_recognized f ≡ true) ↔ ((n : ℕ) → is_n_ary_function f n ≡ some (n == a))
is_n_ary_function_iff f a e h =
    (λ r n. recognized-at f a n e h r, λ k. recognized-from f a e h (k a))
