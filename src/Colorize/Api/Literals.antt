-- ===== src/Colorize/Api/Literals.antt =====
-- What the compile-time check of a literal is good for.
use yk_util.Base.{◌≡◌, refl, subst, Option, none, some}
use yk_util.Colorize.Api.{ColorizeConfig, literal, colorize_to, colorize}
use yk_util.Colorize.Bytes.{Bytes}
use yk_util.Colorize.Result.{Result, ok, error, undefined, out_of_fuel}
use yk_util.Colorize.Result.Laws.{if-elim}
use yk_util.Colorize.Scanner.{checking, noop, colorizing, scan}
use yk_util.Colorize.Scanner.Modes.{accepted-scan}

some-injective : {a b : Bytes} → some a ≡ some b → a ≡ b
some-injective h = cc

accepted-literal :
    (str col : Bytes) → literal str ≡ some col → (out : Bytes) × (scan checking col ≡ ok out)
unfolding literal
accepted-literal str col = by_result (scan checking str) refl
  where
    by_result :
        (r : Result Bytes)
        → scan checking str ≡ r
        → elim r as (λ r. Option Bytes) [
          | ok out ↦ some str
          | error e ↦ none
          | undefined ↦ none
          | out_of_fuel ↦ none
        ]
          ≡ some col
        → (out : Bytes) × (scan checking col ≡ ok out)
    by_result (ok out) e h = (out, subst (λ c. scan checking c ≡ ok out) (some-injective h) e)
    by_result (error f) e h = cc
    by_result undefined e h = cc
    by_result out_of_fuel e h = cc

-- A literal that passes the check at compile time is coloured by colorize without an exception
-- and without undefined behaviour, with and without colours in the configuration.
pub colorize-literal :
    (cfg : ColorizeConfig) (str col : Bytes)
    → literal str ≡ some col
    → (out : Bytes) × (colorize cfg col ≡ ok out)
unfolding colorize colorize_to
colorize-literal cfg str col h =
    let a = accepted-literal str col h in
    if-elim (λ r. (out : Bytes) × (r ≡ ok out)) (ColorizeConfig.need_color cfg)
      (scan colorizing col) (scan noop col) (λ e. accepted-scan checking colorizing col a.0 a.1)
      (λ e. accepted-scan checking noop col a.0 a.1)
