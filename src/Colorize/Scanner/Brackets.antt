-- ===== src/Colorize/Scanner/Brackets.antt =====
-- What the first bracket of a text decides.
use mathlib.Core.Option
use yk_util.Base.{
  ℕ, zero, suc, ◌≡◌, refl, ap, ◌∙◌, Bool, true, false, ◌||◌, [], ◌∷◌, ◌++◌, Option, none, some,
  arith, if◌then◌else◌, ◌==◌, length, drop,
}
use yk_util.Colorize.Bytes.{Bytes, find}
use yk_util.Colorize.Result.{ColorizeError, ok, error, ◌>>=◌}
use yk_util.Colorize.Scanner.{
  Mode, checking, noop, colorizing, Scanner, after_escape, after_field, on_chars, is_at,
  on_replacement_field, on_left_bracket, after_rest, scan_round, scan_loop, start_scan, scan,
  is_empty,
}

-- Neither bracket occurs.
abbrev pub Free : Bytes → Type 0
Free [] = Unit {0}
Free (c ∷ s) = ((c == b'[') ≡ false) × ((c == b']') ≡ false) × Free s

pub find_left-Free : (u t : Bytes) → Free u → find b'[' (u ++ (b'[' ∷ t)) ≡ some (length u)
unfolding find
find_left-Free [] t f = refl
find_left-Free (c ∷ u) t (l, r, f) = ground (arith, find_left-Free u t f)

pub find_right-Free : (u t : Bytes) → Free u → find b']' t ≡ none → find b']' (u ++ t) ≡ none
unfolding find
find_right-Free [] t f h = h
find_right-Free (c ∷ u) t (l, r, f) h = ground (arith, find_right-Free u t f h)

pub find-Free : (u : Bytes) → Free u → (find b'[' u ≡ none) × (find b']' u ≡ none)
unfolding find
find-Free [] f = (refl, refl)
find-Free (c ∷ u) (l, r, f) = let i = find-Free u f in (ground (arith, i.0), ground (arith, i.1))

is_at-append : (c : ℕ) (u t : Bytes) → is_at c (length u) (u ++ t) ≡ is_at c 0 t
is_at-append c [] t = refl
is_at-append c (x ∷ u) t = is_at-append c u t

pub is_at_next : (c d : ℕ) (u t : Bytes) → is_at c (suc (length u)) (u ++ (d ∷ t)) ≡ is_at c 0 t
is_at_next c d [] t = refl
is_at_next c d (x ∷ u) t = is_at_next c d u t

abbrev pub at_text : Bytes → Option ℕ → Option ℕ → Scanner
at_text t l r = record { text = t; left_bracket = l; right_bracket = r; out = [] }

-- The first round of a scan, and the fuel that the others have.
pub scan-first_round :
    (mode : Mode) (t : Bytes)
    → is_empty t ≡ false
    → (n : ℕ) × (scan mode t
        ≡ (scan_round mode (at_text t (find b'[' t) (find b']' t)) >>= scan_loop n mode))
unfolding scan scan_loop start_scan
scan-first_round mode [] e = cc
scan-first_round mode (c ∷ t) e = (length t, refl)

pub loop-empty :
    (n : ℕ) (mode : Mode) (o : Bytes)
    → scan_loop n mode (record { text = []; left_bracket = none; right_bracket = none; out = o })
      ≡ ok o
unfolding scan_loop
loop-empty zero mode o = refl
loop-empty (suc n) mode o = refl

round-none :
    (mode : Mode) (t : Bytes) (n : ℕ)
    → (scan_round mode (at_text t none none) >>= scan_loop n mode) ≡ ok (on_chars mode t)
unfolding scan_round after_rest
round-none mode t n = loop-empty n mode (on_chars mode t)

-- A scanner passes a text without brackets on as on_chars of its kind does: the checking scanner
-- writes nothing, the others the text itself.
pub scan-Free : (mode : Mode) (u : Bytes) → Free u → scan mode u ≡ ok (on_chars mode u)
unfolding scan scan_loop start_scan
scan-Free checking [] f = refl
scan-Free noop [] f = refl
scan-Free colorizing [] f = refl
scan-Free mode (c ∷ u) f =
    let found = find-Free (c ∷ u) f in
    let first = scan-first_round mode (c ∷ u) refl in
    first.1
    ∙ (λ i. scan_round mode (at_text (c ∷ u) (found.0 i) (found.1 i)) >>= scan_loop first.0 mode)
    ∙ round-none mode (c ∷ u) first.0

or_true : (b : Bool) → (b || true) ≡ true
or_true true = refl
or_true false = refl

round-refused :
    (mode : Mode) (t : Bytes) (l n : ℕ)
    → is_at b'[' (suc l) t ≡ true
    → (scan_round mode (at_text t (some l) none) >>= scan_loop n mode)
      ≡ error ColorizeError.unmatched_left_bracket
unfolding scan_round on_left_bracket
round-refused mode t l n h =
    ap
      (λ b.
        (if b
          then error ColorizeError.unmatched_left_bracket
          else if is_at b'[' (suc l) t
          then ok (after_escape mode (at_text t (some l) none) l)
          else on_replacement_field mode (drop (suc l) t) >>= λ f.
              ok (after_field mode (at_text t (some l) none) l f))
        >>= scan_loop n mode)
      (ap (λ b. (suc l == length t) || b) h ∙ or_true (suc l == length t))

pub nonempty-append : (u : Bytes) (c : ℕ) (t : Bytes) → is_empty (u ++ (c ∷ t)) ≡ false
nonempty-append [] c t = refl
nonempty-append (x ∷ u) c t = refl

find_right_none : (v : Bytes) → find b']' v ≡ none → find b']' (b'[' ∷ v) ≡ none
unfolding find
find_right_none v h = ap (Option.map suc) h

-- A text whose first bracket is the escape [[ and that has no closing bracket behind it is
-- refused by every scanner with the error for an unmatched left bracket.
pub scan-lone_escape :
    (mode : Mode) (u v : Bytes)
    → Free u
    → find b']' v ≡ none
    → scan mode (u ++ (b'[' ∷ b'[' ∷ v)) ≡ error ColorizeError.unmatched_left_bracket
scan-lone_escape mode u v f h =
    let t : Bytes = u ++ (b'[' ∷ b'[' ∷ v) in
    let first = scan-first_round mode t (nonempty-append u b'[' (b'[' ∷ v)) in
    let l : find b'[' t ≡ some (length u) = find_left-Free u (b'[' ∷ v) f in
    let r : find b']' t ≡ none =
      find_right-Free u (b'[' ∷ b'[' ∷ v) f (find_right_none (b'[' ∷ v) (find_right_none v h)) in
    first.1
    ∙ (λ i. scan_round mode (at_text t (l i) (r i)) >>= scan_loop first.0 mode)
    ∙ round-refused mode t (length u) first.0 (is_at_next b'[' b'[' u (b'[' ∷ v))
