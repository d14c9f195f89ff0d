-- ===== src/Compare/Then.antt =====
-- Chains of `then`.
use mathlib.Core.Path.{fun_ext}
use yk_util.Base.{◌≡◌, refl, Option, none, some, arith, ◌∙◌, ap}
use yk_util.Compare.{
  Category, Value, common, then_result, Callable, comparator, comp_then_closure, pipe_closure,
  apply, wrap, Call, then_call, both, instantiate,
}

common_assoc : (c d e : Category) → common (common c d) e ≡ common c (common d e)
common_assoc c d e = ground arith

then_result_assoc :
    (u v w : Value) → then_result (then_result u v) w ≡ then_result u (then_result v w)
unfolding then_result
then_result_assoc u v w = ground arith

module _ {A : Type 0} where
  call : Category → (A → A → Value) → Call A
  call k r = record { category = k; run = r }

  call_eq : (k k' : Category) (r r' : A → A → Value) → k ≡ k' → r ≡ r' → call k r ≡ call k' r'
  call_eq k k' r r' p q = ap (λ k. call k r) p ∙ ap (call k') q

  then_call_assoc : (c d e : Call A) → then_call (then_call c d) e ≡ then_call c (then_call d e)
  unfolding then_call call
  then_call_assoc c d e =
      call_eq _ _ _ _ (common_assoc c.category d.category e.category)
        (fun_ext (λ x. fun_ext (λ y. then_result_assoc (c.run x y) (d.run x y) (e.run x y))))

  then_both : Option (Call A) → Option (Call A) → Option (Call A)
  then_both = both (λ c d. some (then_call c d))

  both_assoc : (o p q : Option (Call A)) → then_both (then_both o p) q ≡ then_both o (then_both p q)
  unfolding then_both
  both_assoc none p q = refl
  both_assoc (some c) none q = refl
  both_assoc (some c) (some d) none = refl
  both_assoc (some c) (some d) (some e) = ap some (then_call_assoc c d e)

module _ {A K : Type 0} (key_category : Category) (three_way : K → K → Value) where
  -- f | (then(g) | then(h)) and f | then(g | then(h)) compile for the same f, g and h, with the
  -- same category and the same results.
  pub then_assoc :
      (f g h : Callable A K)
      → instantiate key_category three_way
          (apply (pipe_closure (comp_then_closure g) (comp_then_closure h)) f)
        ≡ instantiate key_category three_way
            (apply (comp_then_closure (comparator (apply (comp_then_closure h) g))) f)
  unfolding apply instantiate then_both
  then_assoc f g h =
      both_assoc (instantiate key_category three_way (wrap f))
        (instantiate key_category three_way (wrap g)) (instantiate key_category three_way (wrap h))
