-- ===== src/Colorize/Scanner/Grammar/Rounds.antt =====
-- The rounds of the scanner at a text of which the first bracket is known.
use Prim.Native.Nat.{Ordering}
use mathlib.Core.Option
use yk_util.Base.{
  ℕ, suc, ◌+◌, ◌≡◌, refl, ap, ◌∙◌, true, false, [], ◌∷◌, ◌++◌, Option, none, some, arith,
  if◌then◌else◌, length, drop, append_assoc,
}
use yk_util.Colorize.Bytes.{Bytes, find}
use yk_util.Colorize.Result.{ColorizeError, Result, ok, error, ◌>>=◌}
use yk_util.Colorize.Scanner.{
  Mode, Scanner, on_chars, is_at, on_replacement_field, on_left_bracket, on_right_bracket,
  after_escape, after_field, after_doubled, after_rest, left_unmatched, right_unmatched, scan_round,
  scan_loop, is_empty, from_option, three_way,
}
use yk_util.Colorize.Scanner.Brackets.{Free, nonempty-append}
use yk_util.Colorize.Scanner.Grammar.Positions.{
  cached, shift, find_left-shift, find_right-shift, unshift, drop-2, take-0, take-1,
}

pub loop-step :
    (n : ℕ) (mode : Mode) (s : Scanner)
    → is_empty (Scanner.text s) ≡ false
    → scan_loop (suc n) mode s ≡ (scan_round mode s >>= scan_loop n mode)
unfolding scan_loop
loop-step n mode s e =
    ap (λ b. if b then ok (Scanner.out s) else scan_round mode s >>= scan_loop n mode) e

pub round_at :
    (mode : Mode) (s : Scanner) (c : Ordering)
    → three_way (Scanner.left_bracket s) (Scanner.right_bracket s) ≡ c
    → scan_round mode s ≡ elim c as (λ c. Result Scanner) [
      | Ordering.eq ↦ ok (after_rest mode s)
      | Ordering.lt ↦ on_left_bracket mode s (from_option (Scanner.left_bracket s))
      | Ordering.gt ↦ on_right_bracket mode s (from_option (Scanner.right_bracket s))
    ]
unfolding scan_round
round_at mode s c e =
    ap
      (λ c. elim c as (λ c. Result Scanner) [
        | Ordering.eq ↦ ok (after_rest mode s)
        | Ordering.lt ↦ on_left_bracket mode s (from_option (Scanner.left_bracket s))
        | Ordering.gt ↦ on_right_bracket mode s (from_option (Scanner.right_bracket s))
      ])
      e

left_order : (k : ℕ) (o : Option ℕ) → three_way (some k) (shift k (Option.map suc o)) ≡ Ordering.lt
unfolding shift
left_order k none = refl
left_order k (some n) = ground arith

right_order : (k : ℕ) (o : Option ℕ) → three_way (shift k (Option.map suc o)) (some k) ≡ Ordering.gt
unfolding shift
right_order k none = refl
right_order k (some n) = ground arith

pub on_left-unmatched :
    (mode : Mode) (s : Scanner) (l : ℕ)
    → left_unmatched s l ≡ true
    → on_left_bracket mode s l ≡ error ColorizeError.unmatched_left_bracket
unfolding on_left_bracket
on_left-unmatched mode s l e =
    ap
      (λ b.
        if b
        then error ColorizeError.unmatched_left_bracket
        else if is_at b'[' (suc l) (Scanner.text s)
        then ok (after_escape mode s l)
        else on_replacement_field mode (drop (suc l) (Scanner.text s)) >>= λ f.
            ok (after_field mode s l f))
      e

pub on_left-escape :
    (mode : Mode) (s : Scanner) (l : ℕ)
    → left_unmatched s l ≡ false
    → is_at b'[' (suc l) (Scanner.text s) ≡ true
    → on_left_bracket mode s l ≡ ok (after_escape mode s l)
unfolding on_left_bracket
on_left-escape mode s l e a = λ i.
    if e i
    then error ColorizeError.unmatched_left_bracket
    else if a i
    then ok (after_escape mode s l)
    else on_replacement_field mode (drop (suc l) (Scanner.text s)) >>= λ f.
        ok (after_field mode s l f)

pub on_left-field :
    (mode : Mode) (s : Scanner) (l : ℕ)
    → left_unmatched s l ≡ false
    → is_at b'[' (suc l) (Scanner.text s) ≡ false
    → on_left_bracket mode s l ≡ (
        on_replacement_field mode (drop (suc l) (Scanner.text s)) >>= λ f.
        ok (after_field mode s l f))
unfolding on_left_bracket
on_left-field mode s l e a = λ i.
    if e i
    then error ColorizeError.unmatched_left_bracket
    else if a i
    then ok (after_escape mode s l)
    else on_replacement_field mode (drop (suc l) (Scanner.text s)) >>= λ f.
        ok (after_field mode s l f)

pub on_right-unmatched :
    (mode : Mode) (s : Scanner) (r : ℕ)
    → right_unmatched s r ≡ true
    → on_right_bracket mode s r ≡ error ColorizeError.unmatched_right_bracket
unfolding on_right_bracket
on_right-unmatched mode s r e =
    ap (λ b. if b then error ColorizeError.unmatched_right_bracket else ok (after_doubled mode s r))
      e

pub on_right-doubled :
    (mode : Mode) (s : Scanner) (r : ℕ)
    → right_unmatched s r ≡ false
    → on_right_bracket mode s r ≡ ok (after_doubled mode s r)
unfolding on_right_bracket
on_right-doubled mode s r e =
    ap (λ b. if b then error ColorizeError.unmatched_right_bracket else ok (after_doubled mode s r))
      e

-- The scanner at a text whose first bracket, behind `u`, opens.
abbrev pub opening : Bytes → Bytes → Bytes → Scanner
opening u t o = record {
  text = u ++ (b'[' ∷ t);
  left_bracket = some (length u);
  right_bracket = shift (length u) (Option.map suc (find b']' t));
  out = o;
}

abbrev pub closing : Bytes → Bytes → Bytes → Scanner
closing u t o = record {
  text = u ++ (b']' ∷ t);
  left_bracket = shift (length u) (Option.map suc (find b'[' t));
  right_bracket = some (length u);
  out = o;
}

plus_zero : (k : ℕ) → k + 0 ≡ k
plus_zero k = omega arith

opening-cached : (u t o : Bytes) → Free u → cached (u ++ (b'[' ∷ t)) o ≡ opening u t o
unfolding find shift
opening-cached u t o f = λ i. record {
  text = u ++ (b'[' ∷ t);
  left_bracket = (find_left-shift u (b'[' ∷ t) f ∙ ap some (plus_zero (length u))) i;
  right_bracket = find_right-shift u (b'[' ∷ t) f i;
  out = o;
}

closing-cached : (u t o : Bytes) → Free u → cached (u ++ (b']' ∷ t)) o ≡ closing u t o
unfolding find shift
closing-cached u t o f = λ i. record {
  text = u ++ (b']' ∷ t);
  left_bracket = find_left-shift u (b']' ∷ t) f i;
  right_bracket = (find_right-shift u (b']' ∷ t) f ∙ ap some (plus_zero (length u))) i;
  out = o;
}

pub opening_round :
    (n : ℕ) (mode : Mode) (u t o : Bytes)
    → Free u
    → scan_loop (suc n) mode (cached (u ++ (b'[' ∷ t)) o)
      ≡ (on_left_bracket mode (opening u t o) (length u) >>= scan_loop n mode)
opening_round n mode u t o f =
    ap (scan_loop (suc n) mode) (opening-cached u t o f)
    ∙ loop-step n mode (opening u t o) (nonempty-append u b'[' t)
    ∙ ap (λ r. r >>= scan_loop n mode)
        (round_at mode (opening u t o) Ordering.lt (left_order (length u) (find b']' t)))

pub closing_round :
    (n : ℕ) (mode : Mode) (u t o : Bytes)
    → Free u
    → scan_loop (suc n) mode (cached (u ++ (b']' ∷ t)) o)
      ≡ (on_right_bracket mode (closing u t o) (length u) >>= scan_loop n mode)
closing_round n mode u t o f =
    ap (scan_loop (suc n) mode) (closing-cached u t o f)
    ∙ loop-step n mode (closing u t o) (nonempty-append u b']' t)
    ∙ ap (λ r. r >>= scan_loop n mode)
        (round_at mode (closing u t o) Ordering.gt (right_order (length u) (find b'[' t)))

pub after_escape-cached :
    (mode : Mode) (u t o : Bytes)
    → after_escape mode (opening u (b'[' ∷ t) o) (length u)
      ≡ cached t (o ++ on_chars mode (u ++ (b'[' ∷ [])))
unfolding after_escape find
after_escape-cached mode u t o = λ i. record {
  text = drop-2 u b'[' b'[' t i;
  left_bracket = find b'[' (drop-2 u b'[' b'[' t i);
  right_bracket = unshift (length u) (find b']' t) i;
  out = o ++ on_chars mode (take-1 u b'[' (b'[' ∷ t) i);
}

pub after_doubled-cached :
    (mode : Mode) (u t o : Bytes)
    → after_doubled mode (closing u (b']' ∷ t) o) (length u)
      ≡ cached t (o ++ on_chars mode (u ++ (b']' ∷ [])))
unfolding after_doubled find
after_doubled-cached mode u t o = λ i. record {
  text = drop-2 u b']' b']' t i;
  left_bracket = unshift (length u) (find b'[' t) i;
  right_bracket = find b']' (drop-2 u b']' b']' t i);
  out = o ++ on_chars mode (take-1 u b']' (b']' ∷ t) i);
}

pub after_field-cached :
    (mode : Mode) (u t o : Bytes) (f : Bytes × Bytes)
    → after_field mode (opening u t o) (length u) f ≡ cached f.1 (o ++ (on_chars mode u ++ f.0))
unfolding after_field
after_field-cached mode u t o f =
    (λ i. record {
      text = f.1;
      left_bracket = find b'[' f.1;
      right_bracket = find b']' f.1;
      out = o ++ on_chars mode (take-0 u (b'[' ∷ t) i) ++ f.0;
    })
    ∙ ap (cached f.1) (append_assoc o (on_chars mode u) f.0)
