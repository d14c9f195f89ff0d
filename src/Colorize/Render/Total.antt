-- ===== src/Colorize/Render/Total.antt =====
-- The results of `colorizer::colorize` in include/yk/colorize.hpp.
use yk_util.Base.{subst, sym, ℕ, ◌≡◌, refl, true, List, [], ◌∷◌, ◌++◌, none, some}
use yk_util.Colorize.Bytes.{Bytes, codes}
use yk_util.Colorize.Emphasis.{each_bit, max_bit}
use yk_util.Colorize.Emphasis.Laws.{AllFlags, each_bit-AllFlags}
use yk_util.Colorize.Parse.{Spec}
use yk_util.Colorize.Render.{emphasis_values, append_u8s, other_values, render}
use yk_util.Colorize.Result.{ColorizeError, Result, ok, error, ◌>>=◌}
use yk_util.Colorize.Result.Laws.{if-elim}

abbrev Succeeds : {A : Type 0} → Result A → Type 0
Succeeds {A = A} r = (a : A) × (r ≡ ok a)

then-Succeeds :
    {A B : Type 0} (r : Result A) (f : A → B) → Succeeds r → Succeeds (r >>= λ a. ok (f a))
then-Succeeds r f (a, e) = subst (λ r. Succeeds (r >>= λ a. ok (f a))) (sym e) (f a, refl)

emphasis_values-Succeeds : (ems : List ℕ) → AllFlags ems → Succeeds (emphasis_values ems)
unfolding emphasis_values
emphasis_values-Succeeds [] a = ([], refl)
emphasis_values-Succeeds (em ∷ ems) ((v, e), a) =
    subst
      (λ o. Succeeds (elim o as (λ o. Result (List ℕ)) [
        | none ↦ error ColorizeError.invalid_emphasis
        | some v ↦ emphasis_values ems >>= λ vs. ok (v ∷ vs)
      ]))
      (sym e) (then-Succeeds (emphasis_values ems) (λ vs. v ∷ vs) (emphasis_values-Succeeds ems a))

-- colorizer::colorize never throws: for every parsed specifier it writes an escape sequence,
-- since emphasis_to_value covers what each_bit yields of any set of emphases.
pub render-total : (s : Spec) → (b : Bytes) × (render s ≡ ok b)
unfolding render
render-total s =
    if-elim Succeeds (Spec.reset s) (ok (27 ∷ codes "[0m"))
      (emphasis_values (each_bit max_bit (Spec.emphasis s)) >>= λ vs.
        ok (27 ∷ codes "[" ++ append_u8s true (vs ++ other_values s) ++ codes "m"))
      (λ e. (27 ∷ codes "[0m", refl))
      (λ e.
        then-Succeeds (emphasis_values (each_bit max_bit (Spec.emphasis s)))
          (λ vs. 27 ∷ codes "[" ++ append_u8s true (vs ++ other_values s) ++ codes "m")
          (emphasis_values-Succeeds (each_bit max_bit (Spec.emphasis s))
            (each_bit-AllFlags (Spec.emphasis s))))
