-- ===== src/Functional.antt =====
-- include/yk/util/functional.hpp: what `invocable_traits` and `is_n_ary_function` make of a type that
-- can be called. The partial specialization that matches a type is chosen as the compiler does.
pub mod Arity
mod Samples
use yk_util.Base.{
  ℕ, ◌+◌, ◌-◌, Bool, true, false, List, [], ◌∷◌, Option, none, some, ◌==◌, if◌then◌else◌,
}

-- The qualifiers of a member function
pub data Cv : Type 0 where
  no_cv const volatile const_volatile : Cv

pub data Ref : Type 0 where
  no_ref lvalue_ref rvalue_ref : Ref

-- A member function with the number of its parameters
pub record MemberFunction : Type 0 where
  pub parameters : ℕ
  pub cv : Cv
  pub ref : Ref
  pub is_noexcept : Bool

-- `R(Args...)`, `R (*)(Args...)` and `R (&)(Args...)`
pub data Form : Type 0 where
  itself pointer reference : Form

-- A type: a function, a pointer to a member, a class with its call operators and its constant
-- `arity` if it has one, or something else.
pub data CppType : Type 0 where
  function : Form → (parameters : ℕ) → (is_noexcept : Bool) → CppType
  member_function : MemberFunction → CppType
  data_member : CppType
  class_type : List MemberFunction → Option ℕ → CppType
  other_type : CppType

-- `invocable_kind`
pub data InvocableKind : Type 0 where
  function_kind member_function_kind data_member_kind function_object_kind : InvocableKind
  overloaded_function_object_kind : InvocableKind

-- `kind`, and the length of `parameters` where there is such a list
pub record Traits : Type 0 where
  pub kind : InvocableKind
  pub parameters : Option ℕ

-- The specializations for `R (C::*)(Args...)` with all qualifiers but those by reference; such a type
-- matches the one for `R C::*`.
unfoldable pub member_traits : MemberFunction → Traits
member_traits m = elim m.ref [
  | no_ref ↦ record { kind = member_function_kind; parameters = some (1 + m.parameters) }
  | _ ↦ record { kind = data_member_kind; parameters = some 1 }
]

-- `drop_head`
abbrev pub drop_head : Option ℕ → Option ℕ
drop_head none = none
drop_head (some n) = some (n - 1)

-- `none` is the empty traits of the primary template. A function type that is noexcept matches none.
unfoldable pub invocable_traits : CppType → Option Traits
unfolding member_traits
invocable_traits (function form parameters is_noexcept) =
    if is_noexcept
    then none
    else some (record { kind = function_kind; parameters = some parameters })
invocable_traits (member_function m) = some (member_traits m)
invocable_traits data_member = some (record { kind = data_member_kind; parameters = some 1 })
invocable_traits (class_type [] arity) = none
invocable_traits (class_type (m ∷ []) arity) =
    some
      (record { kind = function_object_kind; parameters = drop_head (member_traits m).parameters })
invocable_traits (class_type (m ∷ ms) arity) =
    some (record { kind = overloaded_function_object_kind; parameters = none })
invocable_traits other_type = none

-- `has_arity`, with its value
abbrev pub arity_of : CppType → Option ℕ
arity_of (class_type ms arity) = arity
arity_of _ = none

-- `is_n_ary_function_impl`; `none` is its assertion.
unfoldable pub is_n_ary_function_impl : Option ℕ → ℕ → ℕ → Option Bool
is_n_ary_function_impl none n size = some (n == size)
is_n_ary_function_impl (some arity) n size = if arity == size then some (n == size) else none

-- `is_n_ary_function`
unfoldable pub is_n_ary_function : CppType → ℕ → Option Bool
unfolding invocable_traits is_n_ary_function_impl
is_n_ary_function f n = elim (invocable_traits f) [
  | none ↦ some false
  | some traits ↦ elim traits.parameters [
    | none ↦ elim (arity_of f) [ none ↦ some true | some arity ↦ some (n == arity) ]
    | some size ↦ is_n_ary_function_impl (arity_of f) n size
  ]
]
