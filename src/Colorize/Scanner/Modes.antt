-- ===== src/Colorize/Scanner/Modes.antt =====
-- The outcomes of the three scanners of include/yk/colorize.hpp, compared.
use Prim.Native.Nat.{Ordering}
use yk_util.Base.{
  ℕ, zero, suc, ◌≡◌, refl, sym, subst, Bool, true, false, [], if◌then◌else◌, length, drop,
}
use yk_util.Colorize.Bytes.{Bytes}
use yk_util.Colorize.Parse.{Spec, do_parse}
use yk_util.Colorize.Render.Total.{render-total}
use yk_util.Colorize.Result.{ColorizeError, Result, ok, error, undefined, out_of_fuel, ◌>>=◌}
use yk_util.Colorize.Scanner.{
  Mode, checking, noop, colorizing, Scanner, shown, is_at, close_field, on_replacement_field,
  on_left_bracket, on_right_bracket, after_escape, after_field, after_doubled, after_rest,
  left_unmatched, right_unmatched, scan_round, scan_loop, start_scan, scan, is_empty, from_option,
  three_way,
}

-- Both runs return, with related values, or they end in the same way.
pub data SameOutcome {A B : Type 0} (R : A → B → Type 0) : Result A → Result B → Type 0 where
  returned : (a : A) (b : B) → R a b → SameOutcome R (ok a) (ok b)
  threw : (e : ColorizeError) → SameOutcome R (error e) (error e)
  both_undefined : SameOutcome R undefined undefined
  both_stuck : SameOutcome R out_of_fuel out_of_fuel

if-SameOutcome :
    {A B : Type 0} (R : A → B → Type 0) (c : Bool) (r s : Result A) (r' s' : Result B)
    → SameOutcome R r r'
    → SameOutcome R s s'
    → SameOutcome R (if c then r else s) (if c then r' else s')
if-SameOutcome R true r s r' s' h k = h
if-SameOutcome R false r s r' s' h k = k

bind-SameOutcome :
    {A B C D : Type 0} (R : A → B → Type 0) (S : C → D → Type 0) (r : Result A) (r' : Result B)
    (f : A → Result C) (f' : B → Result D)
    → SameOutcome R r r'
    → ((a : A) (b : B) → R a b → SameOutcome S (f a) (f' b))
    → SameOutcome S (r >>= f) (r' >>= f')
bind-SameOutcome R S r r' f f' (returned a b h) k = k a b h
bind-SameOutcome R S r r' f f' (threw e) k = threw e
bind-SameOutcome R S r r' f f' both_undefined k = both_undefined
bind-SameOutcome R S r r' f f' both_stuck k = both_stuck

same : {A : Type 0} (r : Result A) → SameOutcome (λ a b. a ≡ b) r r
same (ok a) = returned a a refl
same (error e) = threw e
same undefined = both_undefined
same out_of_fuel = both_stuck

abbrev pub Any : Bytes → Bytes → Type 0
Any a b = Unit {0}

shown-ok : (mode : Mode) (s : Spec) → (b : Bytes) × (shown mode s ≡ ok b)
unfolding shown
shown-ok checking s = ([], refl)
shown-ok noop s = ([], refl)
shown-ok colorizing s = render-total s

shown-SameOutcome : (m m' : Mode) (s : Spec) → SameOutcome Any (shown m s) (shown m' s)
shown-SameOutcome m m' s =
    let (b, e) = shown-ok m s in
    let (b', e') = shown-ok m' s in
    subst (λ r. SameOutcome Any r (shown m' s)) (sym e)
      (subst (SameOutcome Any (ok b)) (sym e') (returned b b' tt))

abbrev SameRest : Bytes × Bytes → Bytes × Bytes → Type 0
SameRest f g = f.1 ≡ g.1

field-SameOutcome :
    (m m' : Mode) (s : Bytes)
    → SameOutcome SameRest (on_replacement_field m s) (on_replacement_field m' s)
unfolding on_replacement_field
field-SameOutcome m m' s = if-SameOutcome SameRest (is_at b']' 0 s) _ _ _ _ (threw _) (
    bind-SameOutcome (λ a b. a ≡ b) SameRest (do_parse s) (do_parse s) _ _ (same (do_parse s))
      (λ p q e.
        subst
          (λ q.
            SameOutcome SameRest
              (shown m p.0 >>= λ written. close_field p.1 >>= λ rest. ok (written, rest))
              (shown m' q.0 >>= λ written. close_field q.1 >>= λ rest. ok (written, rest)))
          e
          (bind-SameOutcome Any SameRest (shown m p.0) (shown m' p.0) _ _
            (shown-SameOutcome m m' p.0)
            (λ w w' u.
              bind-SameOutcome (λ a b. a ≡ b) SameRest (close_field p.1) (close_field p.1) _ _
                (same (close_field p.1)) (λ a b h. returned _ _ h)))))

abbrev with_out : Scanner → Bytes → Scanner
with_out s o = record s { out = o }

-- The two scanners differ in what they have written only.
abbrev SameInput : Scanner → Scanner → Type 0
SameInput s s' = (o : Bytes) × (s' ≡ with_out s o)

left-SameOutcome :
    (m m' : Mode) (s : Scanner) (o : Bytes) (l : ℕ)
    → SameOutcome SameInput (on_left_bracket m s l) (on_left_bracket m' (with_out s o) l)
unfolding on_left_bracket after_escape after_field
left-SameOutcome m m' s o l = if-SameOutcome SameInput (left_unmatched s l) _ _ _ _ (threw _) (
    if-SameOutcome SameInput (is_at b'[' (suc l) (Scanner.text s)) _ _ _ _ (returned _ _ (_, refl))
      (bind-SameOutcome SameRest SameInput _ _ _ _
        (field-SameOutcome m m' (drop (suc l) (Scanner.text s)))
        (λ f g e. returned _ _ (
          Scanner.out (after_field m' (with_out s o) l g),
          λ i. after_field m' (with_out s o) l (g.0, sym e i),
        ))))

right-SameOutcome :
    (m m' : Mode) (s : Scanner) (o : Bytes) (r : ℕ)
    → SameOutcome SameInput (on_right_bracket m s r) (on_right_bracket m' (with_out s o) r)
unfolding on_right_bracket after_doubled
right-SameOutcome m m' s o r =
    if-SameOutcome SameInput (right_unmatched s r) _ _ _ _ (threw _) (returned _ _ (_, refl))

round-SameOutcome :
    (m m' : Mode) (s : Scanner) (o : Bytes)
    → SameOutcome SameInput (scan_round m s) (scan_round m' (with_out s o))
unfolding scan_round after_rest
round-SameOutcome m m' s o = by_order (three_way (Scanner.left_bracket s) (Scanner.right_bracket s))
  where
    by_order :
        (c : Ordering)
        → SameOutcome SameInput
            (elim c as (λ c. Result Scanner) [
              | Ordering.eq ↦ ok (after_rest m s)
              | Ordering.lt ↦ on_left_bracket m s (from_option (Scanner.left_bracket s))
              | Ordering.gt ↦ on_right_bracket m s (from_option (Scanner.right_bracket s))
            ])
            (elim c as (λ c. Result Scanner) [
              | Ordering.eq ↦ ok (after_rest m' (with_out s o))
              | Ordering.lt ↦
                  on_left_bracket m' (with_out s o) (from_option (Scanner.left_bracket s))
              | Ordering.gt ↦
                  on_right_bracket m' (with_out s o) (from_option (Scanner.right_bracket s))
            ])
    by_order Ordering.eq = returned _ _ (_, refl)
    by_order Ordering.lt = left-SameOutcome m m' s o (from_option (Scanner.left_bracket s))
    by_order Ordering.gt = right-SameOutcome m m' s o (from_option (Scanner.right_bracket s))

loop-SameOutcome :
    (fuel : ℕ) (m m' : Mode) (s : Scanner) (o : Bytes)
    → SameOutcome Any (scan_loop fuel m s) (scan_loop fuel m' (with_out s o))
unfolding scan_loop
loop-SameOutcome zero m m' s o =
    if-SameOutcome Any (is_empty (Scanner.text s)) _ _ _ _ (returned _ _ tt) both_stuck
loop-SameOutcome (suc fuel) m m' s o =
    if-SameOutcome Any (is_empty (Scanner.text s)) _ _ _ _ (returned _ _ tt) (
      bind-SameOutcome SameInput Any (scan_round m s) (scan_round m' (with_out s o)) _ _
        (round-SameOutcome m m' s o)
        (λ t t' (o', e).
          subst (λ t'. SameOutcome Any (scan_loop fuel m t) (scan_loop fuel m' t')) (sym e)
            (loop-SameOutcome fuel m m' t o')))

-- The checking, noop and colorizing scanners return on the same texts, throw the same
-- colorize_error on the same texts, and meet undefined behaviour on the same texts.
pub scan-SameOutcome : (m m' : Mode) (fmt : Bytes) → SameOutcome Any (scan m fmt) (scan m' fmt)
unfolding scan start_scan
scan-SameOutcome m m' fmt = loop-SameOutcome (length fmt) m m' (start_scan fmt) []

returned-SameOutcome :
    {A B : Type 0} (R : A → B → Type 0) (r : Result A) (r' : Result B) (a : A)
    → SameOutcome R r r'
    → r ≡ ok a
    → (b : B) × (r' ≡ ok b)
returned-SameOutcome R r r' a (returned a' b h) e = (b, refl)
returned-SameOutcome R r r' a (threw f) e = cc
returned-SameOutcome R r r' a both_undefined e = cc
returned-SameOutcome R r r' a both_stuck e = cc

-- A text that the scanner of one mode accepts is accepted by that of every mode.
pub accepted-scan :
    (m m' : Mode) (fmt out : Bytes) → scan m fmt ≡ ok out → (out' : Bytes) × (scan m' fmt ≡ ok out')
accepted-scan m m' fmt out e =
    returned-SameOutcome Any (scan m fmt) (scan m' fmt) out (scan-SameOutcome m m' fmt) e
