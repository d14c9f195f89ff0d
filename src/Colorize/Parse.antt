-- ===== src/Colorize/Parse.antt =====
-- `colorizer::do_parse` of include/yk/colorize.hpp. The text of a parse context is the bytes from
-- `begin()` to `end()`; a specifier is a view of it, so reading one byte behind a specifier is
-- defined where the text goes on, and the model takes that byte as an argument.
pub mod Rgb
pub mod Total
pub mod Ends
pub mod Closed
use yk_util.Base.{
  ℕ, zero, suc, Bool, true, false, not, ◌&&◌, ◌||◌, [], ◌∷◌, Option, none, some, if◌then◌else◌,
  ◌==◌, length,
}
use mathlib.Core.Option
use yk_util.Colorize.Bytes.{Bytes, codes, equal, after_prefix}
use yk_util.Colorize.Colors.{make_rgb, name_to_color}
use yk_util.Colorize.Emphasis.{name_to_emphasis, add}
use yk_util.Colorize.Numbers.{from_chars}
use yk_util.Colorize.Result.{ColorizeError, Result, ok, error, undefined, out_of_fuel, ◌>>=◌}

-- `do_parse_result` without `in`, and the members of `colorizer` that `parse` copies it to
pub record Spec : Type 0 where
  pub fg_color : Option ℕ
  pub bg_color : Option ℕ
  pub emphasis : ℕ
  pub reset : Bool
  pub fg_reset : Bool
  pub bg_reset : Bool

abbrev pub empty : Spec
empty = record {
  fg_color = none;
  bg_color = none;
  emphasis = 0;
  reset = false;
  fg_reset = false;
  bg_reset = false;
}

abbrev pub is_some {ℓ} : {A : Type ℓ} → Option A → Bool
is_some none = false
is_some (some a) = true

-- `*p`, where `beyond` is what stands behind the specifier and `none` the end of the text
abbrev pub deref : Option ℕ → Bytes → Result ℕ
deref beyond (c ∷ s) = ok c
deref (some c) [] = ok c
deref none [] = undefined

abbrev pub behind : Bytes → Bytes
behind [] = []
behind (c ∷ s) = s

abbrev pub expect : Option ℕ → ColorizeError → ℕ → Bytes → Result Bytes
expect beyond e c s = deref beyond s >>= λ d. if d == c then ok (behind s) else error e

abbrev pub number : Bytes → Result (ℕ × Bytes)
number s = elim (from_chars s) [ none ↦ error ColorizeError.invalid_number | some r ↦ ok r ]

-- A number and the byte that has to follow it.
unfoldable pub channel : Option ℕ → ColorizeError → ℕ → Bytes → Result (ℕ × Bytes)
channel beyond e c s = number s >>= λ n. expect beyond e c n.1 >>= λ s'. ok (n.0, s')

unfoldable pub parse_channels : Option ℕ → Bytes → Result ℕ
unfolding channel
parse_channels beyond s = channel beyond ColorizeError.invalid_delimiter b',' s >>= λ r.
    channel beyond ColorizeError.invalid_delimiter b',' r.1 >>= λ g.
    channel beyond ColorizeError.unmatched_parenthesis b')' g.1 >>= λ b. ok (make_rgb r.0 g.0 b.0)

unfoldable pub parse_rgb : Option ℕ → Bytes → Result (Option ℕ)
unfolding parse_channels
parse_rgb beyond spec = elim (after_prefix (codes "rgb(") spec) [
  | none ↦ ok none
  | some s ↦ parse_channels beyond s >>= λ c. ok (some c)
]

-- `parse_rgb`, then `name_to_color`: the two tests that stand one after the other three times
unfoldable pub parse_color : Option ℕ → Bytes → Result (Option ℕ)
unfolding parse_rgb
parse_color beyond spec =
    parse_rgb beyond spec >>= λ o. elim o [ some c ↦ ok (some c) | none ↦ ok (name_to_color spec) ]

abbrev pub set_fg : Spec → ℕ → Result Spec
set_fg s c =
    if is_some (Spec.fg_color s)
    then error ColorizeError.multiple_colors
    else ok (record s { fg_color = some c })

abbrev pub set_bg : Spec → ℕ → Result Spec
set_bg s c =
    if is_some (Spec.bg_color s)
    then error ColorizeError.multiple_colors
    else ok (record s { bg_color = some c })

abbrev pub parse_fg : Option ℕ → Spec → Bytes → Result Spec
parse_fg beyond s spec =
    if equal spec (codes "reset")
    then ok (record s { fg_reset = true })
    else parse_color beyond spec >>= λ o. elim o [
      | some c ↦ set_fg s c
      | none ↦ error ColorizeError.fg_prefix
    ]

abbrev pub parse_bg : Option ℕ → Spec → Bytes → Result Spec
parse_bg beyond s spec =
    if equal spec (codes "reset")
    then ok (record s { bg_reset = true })
    else parse_color beyond spec >>= λ o. elim o [
      | some c ↦ set_bg s c
      | none ↦ error ColorizeError.bg_prefix
    ]

abbrev pub parse_prefixed : Option ℕ → Spec → Bytes → Result Spec
parse_prefixed beyond s specifier = elim (after_prefix (codes "fg:") specifier) [
  | some spec ↦ parse_fg beyond s spec
  | none ↦ elim (after_prefix (codes "bg:") specifier) [
    | some spec ↦ parse_bg beyond s spec
    | none ↦ error ColorizeError.invalid_specifier
  ]
]

-- One round of the loop, from `specifier == "reset"` on.
unfoldable pub parse_specifier : Option ℕ → Spec → Bytes → Result Spec
parse_specifier beyond s specifier =
    if equal specifier (codes "reset")
    then ok (record s { reset = true })
    else parse_color beyond specifier >>= λ o. elim o [
      | some c ↦ set_fg s c
      | none ↦ elim (name_to_emphasis specifier) [
        | some e ↦ ok (record s { emphasis = add s.emphasis e })
        | none ↦ parse_prefixed beyond s specifier
      ]
    ]

-- `rest.find_first_of("|]")` cuts the text: the specifier, and what begins with the delimiter.
-- Without a delimiter the second part is `none`: `it += len` adds `npos`.
unfoldable pub cut : Bytes → Bytes × Option Bytes
cut [] = ([], none)
cut (c ∷ s) =
    let r = cut s in if (c == b'|') || (c == b']') then ([], some (c ∷ s)) else (c ∷ r.0, r.1)

abbrev pub first : Bytes → Option ℕ
first [] = none
first (c ∷ s) = some c

abbrev pub rest_of : Option Bytes → Bytes
rest_of none = []
rest_of (some s) = s

-- `if (*it == '|') ++it`
abbrev pub skip_bar : Bytes → Bytes
skip_bar [] = []
skip_bar (c ∷ s) = if c == b'|' then s else c ∷ s

abbrev pub at_bracket : Bytes → Bool
at_bracket [] = false
at_bracket (c ∷ s) = c == b']'

unfoldable pub round : Spec → Bytes → Result (Spec × Bytes)
unfolding cut parse_specifier
round s text =
    let p = cut (skip_bar text) in
    parse_specifier (first (rest_of p.1)) s p.0 >>= λ s'. elim p.1 [
      | none ↦ undefined
      | some rest ↦ ok (s', rest)
    ]

-- The loop, over the text from `it` on.
unfoldable pub specifiers : ℕ → Spec → Bytes → Result (Spec × Bytes)
unfolding round
specifiers fuel s [] = ok (s, [])
specifiers zero s (c ∷ text) = if c == b']' then ok (s, c ∷ text) else out_of_fuel
specifiers (suc fuel) s (c ∷ text) =
    if c == b']' then ok (s, c ∷ text) else round s (c ∷ text) >>= λ p. specifiers fuel p.0 p.1

-- The condition behind the loop.
abbrev pub clashes : Spec → Bool
clashes s = Spec.reset s && (is_some (Spec.fg_color s) || not (Spec.emphasis s == 0))

unfoldable pub check_reset : Spec × Bytes → Result (Spec × Bytes)
check_reset p = if clashes p.0 then error ColorizeError.reset_not_alone else ok p

-- Every round consumes at least one byte.
unfoldable pub do_parse : Bytes → Result (Spec × Bytes)
unfolding specifiers check_reset
do_parse text = specifiers (length text) empty text >>= check_reset
