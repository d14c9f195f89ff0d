-- ===== src/VariantView/Several.antt =====
-- visit of several variants or views (variant.hpp): a visitor that is bound to one of them visits
-- it when it is called with what the others held.
use yk_util.Base.{
  ℕ, ◌+◌, ◌≤◌, ◌≡◌, refl, ◌↔◌, Bool, true, false, ◌&&◌, List, [], ◌∷◌, ◌++◌, length, none, some,
  ◌==◌, ◌∙◌, arith,
}
use yk_util.Variant.{Store, Access, Reference, std_visit}
use yk_util.VariantView.{VariantView, visit}
use yk_util.VariantView.Agreement.{first_of, first_or, exception, visit-first}

pub data VariantLike : Type 0 where
  variant : ℕ → VariantLike
  view : VariantView → VariantLike

module _ {A R : Type 0} (alternatives : List ℕ) where
  -- yk::visit of one variant or view
  unfoldable pub visit_one :
      (Reference → Store A → Store A × Access R) → VariantLike → Store A → Store A × Access R
  unfolding visit std_visit
  visit_one visitor (variant pointer) = std_visit alternatives visitor pointer
  visit_one visitor (view v) = visit alternatives visitor v

-- A visitor of the user, of so many references, and `BoundVisitor`.
pub data Visitor (A R : Type 0) : Type 0 where
  function : ℕ → (List Reference → Store A → Store A × Access R) → Visitor A R
  bound_visitor : Visitor A R → VariantLike → Visitor A R

-- The call operator of `BindBack`
unfoldable pub bind_back : {C : Type 0} → (List Reference → C) → List Reference → List Reference → C
bind_back f args xs = f (xs ++ args)

module _ {A R : Type 0} where
  -- Whether a call with so many references compiles. The operator of `BoundVisitor` takes one.
  unfoldable pub is_invocable : Visitor A R → ℕ → Bool
  is_invocable (function arity f) n = n == arity
  is_invocable (bound_visitor f v) n = n == 1 && is_invocable f (1 + n)

  -- Whether `visit` of a visitor and the variants, the first apart from the others, compiles
  unfoldable pub compiles : Visitor A R → VariantLike → List VariantLike → Bool
  unfolding is_invocable
  compiles f v [] = is_invocable f 1
  compiles f v (w ∷ vs) = compiles (bound_visitor f v) w vs

  bound_twice :
      (f : Visitor A R) (u v w : VariantLike) (vs : List VariantLike)
      → compiles (bound_visitor (bound_visitor f u) v) w vs ≡ false
  unfolding compiles is_invocable
  bound_twice f u v w [] = refl
  bound_twice f u v w (x ∷ vs) = bound_twice (bound_visitor f u) v w x vs

  -- A visit of n variants or views with a visitor of k arguments compiles exactly if n is k and
  -- is at most 2.
  pub compiles-at_most_two :
      (arity : ℕ) (f : List Reference → Store A → Store A × Access R) (v : VariantLike)
      (vs : List VariantLike)
      → (compiles (function arity f) v vs ≡ true) ↔ ((1 + length vs ≡ arity) × (arity ≤ 2))
  unfolding compiles is_invocable
  compiles-at_most_two arity f v [] = ground arith
  compiles-at_most_two arity f v (w ∷ []) = ground arith
  compiles-at_most_two arity f v (w ∷ x ∷ vs) =
      ground (arith, bound_twice (function arity f) v w x vs)

module _ {A R : Type 0} (alternatives : List ℕ) where
  unfoldable pub invoke : Visitor A R → List Reference → Store A → Store A × Access R
  unfolding visit_one bind_back
  invoke (function arity f) xs = f xs
  invoke (bound_visitor f v) xs = visit_one alternatives (λ y. bind_back (invoke f) xs (y ∷ [])) v

  unfoldable pub visit_all :
      Visitor A R → VariantLike → List VariantLike → Store A → Store A × Access R
  unfolding invoke visit_one
  visit_all f v [] store = visit_one alternatives (λ x. invoke f (x ∷ [])) v store
  visit_all f v (w ∷ vs) store = visit_all (bound_visitor f v) w vs store

  -- visit of two views calls the visitor once, with what the first view and then what the second
  -- view gives, and if a view gives nothing it ends with the exception of that view without a
  -- call; the second view is looked at first.
  pub visit_two_views :
      (f : List Reference → Store A → Store A × Access R) (v w : VariantView) (store : Store A)
      → visit_all (function 2 f) (view v) (view w ∷ []) store
        ≡ first_or alternatives w store
            (store, exception alternatives w store)
            (λ y.
              first_or alternatives v store
                (store, exception alternatives v store)
                (λ x. f (x ∷ y ∷ []) store))
  unfolding visit_all invoke visit_one bind_back
  visit_two_views f v w store =
      visit-first alternatives w store (λ y. visit alternatives (λ x. f (x ∷ y ∷ [])) v)
      ∙ elim (first_of alternatives w store w.members)
          as (λ o.
            elim o [
              | none ↦ (store, exception alternatives w store)
              | some y ↦ visit alternatives (λ x. f (x ∷ y ∷ [])) v store
            ]
            ≡ elim o [
              | none ↦ (store, exception alternatives w store)
              | some y ↦
                  first_or alternatives v store (store, exception alternatives v store)
                    (λ x. f (x ∷ y ∷ []) store)
            ]) [ none ↦ refl | some y ↦ visit-first alternatives v store (λ x. f (x ∷ y ∷ [])) ]
