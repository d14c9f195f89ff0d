-- ===== src/Colorize/Result.antt =====
-- How the code of include/yk/colorize.hpp ends: with a value, with a `colorize_error`, or with
-- behaviour that the language leaves undefined. `out_of_fuel` is the model's own.
pub mod Laws

pub data ColorizeError : Type 0 where
  invalid_number invalid_delimiter unmatched_parenthesis : ColorizeError
  multiple_colors fg_prefix bg_prefix invalid_specifier reset_not_alone : ColorizeError
  invalid_emphasis unmatched_left_bracket unmatched_right_bracket empty_specifier
        unmatched_left_brace :
      ColorizeError

pub data Result {ℓ} (A : Type ℓ) : Type ℓ where
  ok : A → Result A
  error : ColorizeError → Result A
  undefined : Result A
  out_of_fuel : Result A

infixl 5 ◌>>=◌
abbrev pub ◌>>=◌ {ℓ κ} : {A : Type ℓ} {B : Type κ} → Result A → (A → Result B) → Result B
ok a >>= f = f a
error e >>= f = error e
undefined >>= f = undefined
out_of_fuel >>= f = out_of_fuel
