-- ===== src/Colorize/Render.antt =====
-- `colorizer::colorize` of include/yk/colorize.hpp: the escape sequence that selects the graphics.
pub mod Total
use yk_util.Base.{ℕ, Bool, true, false, List, [], ◌∷◌, ◌++◌, Option, none, some, if◌then◌else◌}
use yk_util.Colorize.Bytes.{Bytes, codes}
use yk_util.Colorize.Colors.{get_rgb}
use yk_util.Colorize.Emphasis.{each_bit, emphasis_to_value, max_bit}
use yk_util.Colorize.Numbers.{to_chars}
use yk_util.Colorize.Parse.{Spec}
use yk_util.Colorize.Result.{ColorizeError, Result, ok, error, ◌>>=◌}

-- The numbers of the emphases, in the order of their bits.
unfoldable pub emphasis_values : List ℕ → Result (List ℕ)
emphasis_values [] = ok []
emphasis_values (em ∷ ems) = elim (emphasis_to_value em) [
  | none ↦ error ColorizeError.invalid_emphasis
  | some v ↦ emphasis_values ems >>= λ vs. ok (v ∷ vs)
]

abbrev pub color_values : ℕ → Option ℕ → List ℕ
unfolding get_rgb
color_values which none = []
color_values which (some c) = let rgb = get_rgb c in which ∷ 2 ∷ rgb.0 ∷ rgb.1 ∷ rgb.2 ∷ []

-- The arguments of the calls of `append_u8_to` behind the emphases.
abbrev pub other_values : Spec → List ℕ
other_values s =
    (if Spec.fg_reset s then 39 ∷ [] else [])
    ++ (if Spec.bg_reset s then 49 ∷ [] else [])
    ++ color_values 38 (Spec.fg_color s)
    ++ color_values 48 (Spec.bg_color s)

-- The successive calls of `append_u8_to`; the flag is `first`.
unfoldable pub append_u8s : Bool → List ℕ → Bytes
append_u8s first [] = []
append_u8s first (v ∷ vs) = (if first then [] else b';' ∷ []) ++ to_chars v ++ append_u8s false vs

unfoldable pub render : Spec → Result Bytes
unfolding emphasis_values append_u8s each_bit
render s =
    if Spec.reset s
    then ok (27 ∷ codes "[0m")
    else emphasis_values (each_bit max_bit (Spec.emphasis s)) >>= λ vs.
        ok (27 ∷ codes "[" ++ append_u8s true (vs ++ other_values s) ++ codes "m")
