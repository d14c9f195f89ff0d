-- ===== src/Colorize/Api.antt =====
-- The functions at the end of include/yk/colorize.hpp. A `colorize_string` made from a literal has
-- passed the checking scanner at compile time; one made by `runtime_colorize` has not. `std::format`
-- and `isatty` are parameters.
pub mod Literals
use yk_util.Base.{ℕ, Bool, true, if◌then◌else◌, length, Option, none, some}
use yk_util.Colorize.Bytes.{Bytes}
use yk_util.Colorize.Result.{Result, ok, error, undefined, out_of_fuel, ◌>>=◌}
use yk_util.Colorize.Scanner.{checking, noop, colorizing, scan}

pub record ColorizeConfig : Type 0 where
  pub need_color : Bool

-- `colorize_config()`, `colorize_config(bool)`, and `colorize_config(std::FILE*)` by `isatty`
abbrev pub default_config : ColorizeConfig
default_config = record { need_color = true }

abbrev pub config_of : Bool → ColorizeConfig
config_of need_color = record { need_color = need_color }

abbrev pub auto_detect {ℓ} : {File : Type ℓ} → (File → Bool) → File → ColorizeConfig
auto_detect isatty stream = record { need_color = isatty stream }

-- `basic_colorize_string(const S&)`, evaluated by the compiler: `none` is a program that is refused.
unfoldable pub literal : Bytes → Option Bytes
unfolding scan
literal str = elim (scan checking str) [
  | ok out ↦ some str
  | error e ↦ none
  | undefined ↦ none
  | out_of_fuel ↦ none
]

-- `basic_colorize_string(basic_runtime_colorize_string)`
abbrev pub runtime_colorize : Bytes → Bytes
runtime_colorize str = str

-- `colorize_to` with a configuration: what is written to `out`
unfoldable pub colorize_to : ColorizeConfig → Bytes → Result Bytes
unfolding scan
colorize_to cfg col = if ColorizeConfig.need_color cfg then scan colorizing col else scan noop col

-- `colorize(cfg, col)` and `colorize(col)`
unfoldable pub colorize : ColorizeConfig → Bytes → Result Bytes
unfolding colorize_to
colorize cfg col = colorize_to cfg col

unfoldable pub colorize_always : Bytes → Result Bytes
unfolding scan
colorize_always col = scan colorizing col

-- `colorized_size`, over a `counting_iterator`
unfoldable pub colorized_size : Bytes → Result ℕ
unfolding colorize_always
colorized_size col = colorize_always col >>= λ out. ok (length out)

-- `format_colorize(cfg, fmt, args...)`, with what `std::format` makes of the arguments
unfoldable pub format_colorize {ℓ} :
    {Args : Type ℓ} → (Bytes → Args → Bytes) → ColorizeConfig → Bytes → Args → Result Bytes
unfolding colorize
format_colorize format cfg fmt args = colorize cfg (runtime_colorize (format fmt args))
