-- ===== src/Colorize/Scanner/Unclosed.antt =====
-- A specifier that no bracket closes.
use mathlib.Core.Option
use yk_util.Base.{
  ℕ, suc, ◌≡◌, refl, ap, ◌∙◌, false, ◌||◌, [], ◌∷◌, ◌++◌, none, some, arith, if◌then◌else◌, ◌==◌,
  length, length-append, drop,
}
use yk_util.Colorize.Bytes.{Bytes, find}
use yk_util.Colorize.Parse.{
  Spec, empty, cut, first, rest_of, skip_bar, parse_specifier, specifiers, round, check_reset,
  do_parse,
}
use yk_util.Colorize.Result.{ColorizeError, Result, ok, error, undefined, ◌>>=◌}
use yk_util.Colorize.Scanner.{
  Mode, shown, close_field, is_at, on_replacement_field, on_left_bracket, after_escape, after_field,
  scan_round, scan_loop, scan,
}
use yk_util.Colorize.Scanner.Brackets.{
  Free, at_text, scan-first_round, find_left-Free, find_right-Free, is_at_next, nonempty-append,
}

-- Neither a bar nor a closing bracket occurs.
abbrev pub Undelimited : Bytes → Type 0
Undelimited [] = Unit {0}
Undelimited (c ∷ s) = ((c == b'|') ≡ false) × ((c == b']') ≡ false) × Undelimited s

cut-Undelimited : (w : Bytes) → Undelimited w → cut w ≡ (w, none)
unfolding cut
cut-Undelimited [] d = refl
cut-Undelimited (c ∷ w) (b, r, d) = (λ i.
    let p = cut-Undelimited w d i in if b i || r i then ([], some (c ∷ w)) else (c ∷ p.0, p.1))

find-Undelimited : (w : Bytes) → Undelimited w → find b']' w ≡ none
unfolding find
find-Undelimited [] d = refl
find-Undelimited (c ∷ w) (b, r, d) = ground (arith, find-Undelimited w d)

-- The iterator is moved by npos behind the only specifier.
round-Undelimited :
    (c : ℕ) (w : Bytes) (s : Spec)
    → Undelimited (c ∷ w)
    → parse_specifier none empty (c ∷ w) ≡ ok s
    → round empty (c ∷ w) ≡ undefined
unfolding round
round-Undelimited c w s (b, r, d) e =
    (λ i.
      let p = (ap cut (skip_bar_none b) ∙ cut-Undelimited (c ∷ w) (b, r, d)) i in
      parse_specifier (first (rest_of p.1)) empty p.0 >>= λ s'.
      elim p.1 as (λ o. Result (Spec × Bytes)) [ none ↦ undefined | some rest ↦ ok (s', rest) ])
    ∙ ap (λ r. r >>= λ s'. undefined) e
  where
    skip_bar_none : (c == b'|') ≡ false → skip_bar (c ∷ w) ≡ c ∷ w
    skip_bar_none b = ap (λ t. if t then w else c ∷ w) b

do_parse-Undelimited :
    (c : ℕ) (w : Bytes) (s : Spec)
    → Undelimited (c ∷ w)
    → parse_specifier none empty (c ∷ w) ≡ ok s
    → do_parse (c ∷ w) ≡ undefined
unfolding do_parse specifiers
do_parse-Undelimited c w s (b, r, d) e = (λ i.
    (if r i
      then ok (empty, c ∷ w)
      else round-Undelimited c w s (b, r, d) e i >>= λ p. specifiers (length w) p.0 p.1)
    >>= check_reset)

field-Undelimited :
    (mode : Mode) (c : ℕ) (w : Bytes) (s : Spec)
    → Undelimited (c ∷ w)
    → parse_specifier none empty (c ∷ w) ≡ ok s
    → on_replacement_field mode (c ∷ w) ≡ undefined
unfolding on_replacement_field
field-Undelimited mode c w s (b, r, d) e = (λ i.
    if r i
    then error ColorizeError.empty_specifier
    else do_parse-Undelimited c w s (b, r, d) e i >>= λ p.
        shown mode p.0 >>= λ written. close_field p.1 >>= λ rest. ok (written, rest))

drop-append : (u : Bytes) (d : ℕ) (t : Bytes) → drop (suc (length u)) (u ++ (d ∷ t)) ≡ t
drop-append [] d t = refl
drop-append (x ∷ u) d t = drop-append u d t

not_last : (u : Bytes) (d c : ℕ) (t : Bytes) → (suc (length u) == length (u ++ (d ∷ c ∷ t))) ≡ false
not_last u d c t = ground (arith, length-append u (d ∷ c ∷ t))

round-unclosed :
    (mode : Mode) (t : Bytes) (l n : ℕ)
    → (suc l == length t) ≡ false
    → is_at b'[' (suc l) t ≡ false
    → on_replacement_field mode (drop (suc l) t) ≡ undefined
    → (scan_round mode (at_text t (some l) none) >>= scan_loop n mode) ≡ undefined
unfolding scan_round on_left_bracket
round-unclosed mode t l n p q e = (λ i.
    (if p i || q i
      then error ColorizeError.unmatched_left_bracket
      else if q i
      then ok (after_escape mode (at_text t (some l) none) l)
      else e i >>= λ f. ok (after_field mode (at_text t (some l) none) l f))
    >>= scan_loop n mode)

find_right_behind : (v : Bytes) → find b']' v ≡ none → find b']' (b'[' ∷ v) ≡ none
unfolding find
find_right_behind v h = ap (Option.map suc) h

-- A text that has no bracket before a left bracket and ends in a specifier behind it, which
-- parse_specifier accepts and which has no bar, no closing bracket and no left bracket in front,
-- makes every scanner meet undefined behaviour.
pub scan-unclosed :
    (mode : Mode) (u : Bytes) (c : ℕ) (w : Bytes) (s : Spec)
    → Free u
    → (c == b'[') ≡ false
    → Undelimited (c ∷ w)
    → parse_specifier none empty (c ∷ w) ≡ ok s
    → scan mode (u ++ (b'[' ∷ c ∷ w)) ≡ undefined
scan-unclosed mode u c w s f k d e =
    let t : Bytes = u ++ (b'[' ∷ c ∷ w) in
    let first = scan-first_round mode t (nonempty-append u b'[' (c ∷ w)) in
    let l : find b'[' t ≡ some (length u) = find_left-Free u (c ∷ w) f in
    let r : find b']' t ≡ none =
      find_right-Free u (b'[' ∷ c ∷ w) f (find_right_behind (c ∷ w) (find-Undelimited (c ∷ w) d)) in
    first.1
    ∙ (λ i. scan_round mode (at_text t (l i) (r i)) >>= scan_loop first.0 mode)
    ∙ round-unclosed mode t (length u) first.0 (not_last u b'[' c w)
        (is_at_next b'[' b'[' u (c ∷ w) ∙ k)
        (ap (on_replacement_field mode) (drop-append u b'[' (c ∷ w))
          ∙ field-Undelimited mode c w s d e)
