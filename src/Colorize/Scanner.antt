-- ===== src/Colorize/Scanner.antt =====
-- `scanner`, `checking_scanner`, `noop_scanner` and `colorizing_scanner` of include/yk/colorize.hpp.
-- A scanner that throws has no result here: what it wrote before is not modelled.
pub mod Total
pub mod Modes
pub mod Brackets
pub mod Unclosed
pub mod Grammar
pub mod Closed
use Prim.Native.Nat.{compare, Ordering}
use yk_util.Base.{
  ℕ, zero, suc, ◌+◌, ◌-◌, Bool, true, false, not, ◌&&◌, ◌||◌, [], ◌∷◌, ◌++◌, Option, none, some,
  if◌then◌else◌, ◌==◌, length, take, drop,
}
use mathlib.Core.Option
use yk_util.Colorize.Bytes.{Bytes, find}
use yk_util.Colorize.Parse.{Spec, do_parse}
use yk_util.Colorize.Render.{render}
use yk_util.Colorize.Result.{ColorizeError, Result, ok, error, out_of_fuel, ◌>>=◌}

-- the three classes that derive from `scanner`
pub data Mode : Type 0 where
  checking noop colorizing : Mode

-- `on_chars`
abbrev pub on_chars : Mode → Bytes → Bytes
on_chars checking chars = []
on_chars noop chars = chars
on_chars colorizing chars = chars

-- What `colorize` writes once the specifier is parsed.
unfoldable pub shown : Mode → Spec → Result Bytes
unfolding render
shown checking s = ok []
shown noop s = ok []
shown colorizing s = render s

-- `fmt` and `pc`, the two cached positions, and what has been written; `none` is `npos`.
pub record Scanner : Type 0 where
  pub text : Bytes
  pub left_bracket : Option ℕ
  pub right_bracket : Option ℕ
  pub out : Bytes

-- `left_bracket <=> right_bracket`
abbrev pub three_way : Option ℕ → Option ℕ → Ordering
three_way none none = Ordering.eq
three_way (some l) none = Ordering.lt
three_way none (some r) = Ordering.gt
three_way (some l) (some r) = compare l r

-- `s[i] == c`
abbrev pub is_at : ℕ → ℕ → Bytes → Bool
is_at c i [] = false
is_at c zero (x ∷ s) = x == c
is_at c (suc i) (x ∷ s) = is_at c i s

-- The closing bracket behind a specifier.
abbrev pub close_field : Bytes → Result Bytes
close_field [] = error ColorizeError.unmatched_left_brace
close_field (c ∷ s) = if c == b']' then ok s else error ColorizeError.unmatched_left_brace

-- `on_replacement_field`: what it writes, and the text behind it.
unfoldable pub on_replacement_field : Mode → Bytes → Result (Bytes × Bytes)
unfolding do_parse
on_replacement_field mode s =
    if is_at b']' 0 s
    then error ColorizeError.empty_specifier
    else do_parse s >>= λ p.
        shown mode p.0 >>= λ written. close_field p.1 >>= λ rest. ok (written, rest)

abbrev pub is_npos : Option ℕ → Bool
is_npos none = true
is_npos (some n) = false

-- The test in front of the branch `comp < 0`, at a position `l` of the left bracket.
abbrev pub left_unmatched : Scanner → ℕ → Bool
left_unmatched s l =
    (suc l == length (Scanner.text s))
    || (is_npos (Scanner.right_bracket s) && is_at b'[' (suc l) (Scanner.text s))

-- behind `[[`
unfoldable pub after_escape : Mode → Scanner → ℕ → Scanner
after_escape mode s l = record {
  text = drop (suc (suc l)) (Scanner.text s);
  left_bracket = find b'[' (drop (suc (suc l)) (Scanner.text s));
  right_bracket = Option.map (λ r. r - (l + 2)) (Scanner.right_bracket s);
  out = Scanner.out s ++ on_chars mode (take (suc l) (Scanner.text s));
}

-- behind a replacement field, from what it wrote and the text behind it
unfoldable pub after_field : Mode → Scanner → ℕ → Bytes × Bytes → Scanner
after_field mode s l f = record {
  text = f.1;
  left_bracket = find b'[' f.1;
  right_bracket = find b']' f.1;
  out = Scanner.out s ++ on_chars mode (take l (Scanner.text s)) ++ f.0;
}

unfoldable pub on_left_bracket : Mode → Scanner → ℕ → Result Scanner
unfolding on_replacement_field after_escape after_field
on_left_bracket mode s l =
    if left_unmatched s l
    then error ColorizeError.unmatched_left_bracket
    else if is_at b'[' (suc l) (Scanner.text s)
    then ok (after_escape mode s l)
    else on_replacement_field mode (drop (suc l) (Scanner.text s)) >>= λ f.
        ok (after_field mode s l f)

abbrev pub right_unmatched : Scanner → ℕ → Bool
right_unmatched s r =
    (suc r == length (Scanner.text s)) || not (is_at b']' (suc r) (Scanner.text s))

-- behind `]]`
unfoldable pub after_doubled : Mode → Scanner → ℕ → Scanner
after_doubled mode s r = record {
  text = drop (suc (suc r)) (Scanner.text s);
  left_bracket = Option.map (λ l. l - (r + 2)) (Scanner.left_bracket s);
  right_bracket = find b']' (drop (suc (suc r)) (Scanner.text s));
  out = Scanner.out s ++ on_chars mode (take (suc r) (Scanner.text s));
}

-- The branch `comp > 0`, at a position `r` of the right bracket.
unfoldable pub on_right_bracket : Mode → Scanner → ℕ → Result Scanner
unfolding after_doubled
on_right_bracket mode s r =
    if right_unmatched s r
    then error ColorizeError.unmatched_right_bracket
    else ok (after_doubled mode s r)

-- The branch `comp == 0`: no brackets, the rest is consumed.
unfoldable pub after_rest : Mode → Scanner → Scanner
after_rest mode s = record {
  text = [];
  left_bracket = none;
  right_bracket = none;
  out = Scanner.out s ++ on_chars mode (Scanner.text s);
}

abbrev pub from_option : Option ℕ → ℕ
from_option none = 0
from_option (some n) = n

-- One round of the loop at a text that is not empty.
unfoldable pub scan_round : Mode → Scanner → Result Scanner
unfolding on_left_bracket on_right_bracket after_rest
scan_round mode s = elim (three_way (Scanner.left_bracket s) (Scanner.right_bracket s)) [
  | Ordering.eq ↦ ok (after_rest mode s)
  | Ordering.lt ↦ on_left_bracket mode s (from_option (Scanner.left_bracket s))
  | Ordering.gt ↦ on_right_bracket mode s (from_option (Scanner.right_bracket s))
]

abbrev pub is_empty : Bytes → Bool
is_empty [] = true
is_empty (c ∷ s) = false

unfoldable pub scan_loop : ℕ → Mode → Scanner → Result Bytes
unfolding scan_round
scan_loop zero mode s = if is_empty (Scanner.text s) then ok (Scanner.out s) else out_of_fuel
scan_loop (suc fuel) mode s =
    if is_empty (Scanner.text s)
    then ok (Scanner.out s)
    else scan_round mode s >>= scan_loop fuel mode

unfoldable pub start_scan : Bytes → Scanner
unfolding find
start_scan fmt = record {
  text = fmt;
  left_bracket = find b'[' fmt;
  right_bracket = find b']' fmt;
  out = [];
}

-- Every round consumes at least one byte.
unfoldable pub scan : Mode → Bytes → Result Bytes
unfolding scan_loop start_scan
scan mode fmt = scan_loop (length fmt) mode (start_scan fmt)
