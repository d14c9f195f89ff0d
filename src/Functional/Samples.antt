-- ===== src/Functional/Samples.antt =====
-- Member functions with and without a reference qualifier, and call operators.
use yk_util.Base.{ℕ, ◌≡◌, refl, ◌↔◌, true, false, [], ◌∷◌, none, some, ◌==◌}
use yk_util.Functional.{
  function, class_type, MemberFunction, no_cv, const, no_ref, lvalue_ref, itself, invocable_traits,
  is_n_ary_function, is_n_ary_function_impl, member_traits,
}
use yk_util.Functional.Arity.{is_recognized, is_n_ary_function_iff}

abbrev unary : MemberFunction
unary = record { parameters = 1; cv = const; ref = no_ref; is_noexcept = true }

abbrev unary_on_lvalues : MemberFunction
unary_on_lvalues = record { parameters = 1; cv = no_cv; ref = lvalue_ref; is_noexcept = false }

on_lvalues : is_n_ary_function (class_type (unary_on_lvalues ∷ []) none) 1 ≡ some false
unfolding is_n_ary_function invocable_traits is_n_ary_function_impl member_traits
on_lvalues = refl

without_exceptions : is_n_ary_function (function itself 1 true) 1 ≡ some false
unfolding is_n_ary_function invocable_traits
without_exceptions = refl

overloaded : is_n_ary_function (class_type (unary ∷ unary_on_lvalues ∷ []) none) 7 ≡ some true
unfolding is_n_ary_function invocable_traits
overloaded = refl

wrong_arity : is_n_ary_function (class_type (unary ∷ []) (some 2)) 1 ≡ none
unfolding is_n_ary_function invocable_traits is_n_ary_function_impl member_traits
wrong_arity = refl

is_n_ary_function_iff_example :
    (is_recognized (class_type (unary_on_lvalues ∷ []) none) ≡ true)
    ↔ ((n : ℕ) → is_n_ary_function (class_type (unary_on_lvalues ∷ []) none) n ≡ some (n == 1))
is_n_ary_function_iff_example =
    is_n_ary_function_iff (class_type (unary_on_lvalues ∷ []) none) 1 refl refl
