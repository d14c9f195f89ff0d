-- ===== src/Colorize/Samples.antt =====
-- Runs of the colouring functions, and uses of the theorems at concrete texts.
use yk_util.Base.{◌≡◌, ◌≢◌, refl, true, [], ◌∷◌, ◌++◌, none, some, arith}
use yk_util.Colorize.Api.{default_config, literal, colorize}
use yk_util.Colorize.Api.Literals.{colorize-literal}
use yk_util.Colorize.Bytes.{Bytes, codes, equal, after_prefix, less, find}
use yk_util.Colorize.Colors.{make_rgb, get_rgb, name_to_color}
use yk_util.Colorize.Numbers.{from_chars, to_chars}
use yk_util.Colorize.Parse.{Spec, empty, parse_color, parse_rgb, parse_specifier, do_parse}
use yk_util.Colorize.Parse.Rgb.{rgb_text, parse_rgb-rgb_text}
use yk_util.Colorize.Result.{ColorizeError, ok, error, undefined}
use yk_util.Colorize.Result.Laws.{Ends}
use yk_util.Colorize.Scanner.{noop, colorizing, scan, shown}
use yk_util.Colorize.Scanner.Brackets.{scan-lone_escape}
use yk_util.Colorize.Scanner.Grammar.{Reads}
use yk_util.Colorize.Scanner.Grammar.Refines.{scan-Reads}
use yk_util.Colorize.Scanner.Unclosed.{scan-unclosed}
use yk_util.Colorize.Parse.Closed.{closes, closed}
use yk_util.Colorize.Scanner.Closed.{scan-Ends}

-- Tests.

rgb_test :
    scan colorizing (codes "[rgb(1,2,30)]x[reset]")
    ≡ ok (27 ∷ codes "[38;2;1;2;30mx" ++ 27 ∷ codes "[0m")
unfolding scan equal parse_color after_prefix shown from_chars make_rgb get_rgb to_chars
rgb_test = refl

brackets_test : scan noop (codes "[reset][[[reset]]]") ≡ ok (codes "[]")
unfolding scan equal shown
brackets_test = refl

escape_test : scan noop (codes "a[[b") ≡ error ColorizeError.unmatched_left_bracket
unfolding scan
escape_test = refl

unclosed_test : scan noop (codes "a[red") ≡ undefined
unfolding scan equal parse_color after_prefix name_to_color less
unclosed_test = refl

-- Witnesses.

parse_rgb-rgb_text_example :
    (parse_rgb none (rgb_text 1 20 255 (codes "x")) ≡ ok (some 70911))
    × (get_rgb 70911 ≡ (1, 20, 255))
parse_rgb-rgb_text_example =
    parse_rgb-rgb_text none 1 20 255 (codes "x") (omega arith) (omega arith) (omega arith)

abbrev red_bold : Spec
red_bold = record empty { fg_color = some 0xff0000; emphasis = 129 }

abbrev reset_text : Bytes
reset_text = codes "reset]x"

abbrev reset_parsed : Spec × Bytes
reset_parsed = (record empty { reset = true }, codes "]x")

reset_text-nonempty : reset_text ≢ []
reset_text-nonempty e = cc

do_parse-reset : do_parse reset_text ≡ ok reset_parsed
unfolding do_parse equal
do_parse-reset = refl

-- An escape and two fields, the second with two specifiers; then the loop ends by an error.
abbrev fields : Bytes
fields = codes "[[a[red|bold]x]y"

fields_closed : closed fields ≡ true
unfolding closed closes
fields_closed = refl

scan-Ends_example : Ends (scan colorizing fields)
scan-Ends_example = scan-Ends colorizing fields fields_closed

literal-reset : literal (codes "a[reset]b") ≡ some (codes "a[reset]b")
unfolding literal equal shown
literal-reset = refl

colorize-literal_example : (out : Bytes) × (colorize default_config (codes "a[reset]b") ≡ ok out)
colorize-literal_example =
    colorize-literal default_config (codes "a[reset]b") (codes "a[reset]b") literal-reset

no_right_bracket : find b']' (codes "b") ≡ none
unfolding find
no_right_bracket = refl

scan-lone_escape_example : scan noop (codes "a[[b") ≡ error ColorizeError.unmatched_left_bracket
scan-lone_escape_example =
    scan-lone_escape noop (codes "a") (codes "b") (refl, refl, tt) no_right_bracket

parsed-reset : parse_specifier none empty (codes "reset") ≡ ok (record empty { reset = true })
unfolding parse_specifier equal
parsed-reset = refl

scan-unclosed_example : scan colorizing (codes "a[reset") ≡ undefined
scan-unclosed_example =
    scan-unclosed colorizing (codes "a") b'r' (codes "eset") (record empty { reset = true })
      (refl, refl, tt) refl (refl, refl, (refl, refl, (refl, refl, (refl, refl, (refl, refl, tt)))))
      parsed-reset

scan-Reads_example : Reads colorizing (codes "a[red]b]]") (scan colorizing (codes "a[red]b]]"))
scan-Reads_example = scan-Reads colorizing (codes "a[red]b]]")
