-- ===== src/Colorize/Scanner/Total.antt =====
-- The text that the rounds of the scanner consume, and its fuel.
use Prim.Native.Nat.{Ordering}
use yk_util.Base.{
  ℕ, zero, suc, ◌≤◌, ◌≡◌, refl, sym, subst, false, [], ◌∷◌, arith, if◌then◌else◌, ◌==◌, length,
  length-drop, drop,
}
use yk_util.Colorize.Bytes.{Bytes}
use yk_util.Colorize.Parse.{Spec, do_parse}
use yk_util.Colorize.Parse.Ends.{do_parse-InFuel, do_parse-length}
use yk_util.Colorize.Render.Total.{render-total}
use yk_util.Colorize.Result.{ColorizeError, Result, ok, error, undefined, out_of_fuel, ◌>>=◌}
use yk_util.Colorize.Result.Laws.{InFuel, if-elim}
use yk_util.Colorize.Scanner.{
  Mode, checking, noop, colorizing, Scanner, shown, is_at, close_field, on_replacement_field,
  on_left_bracket, on_right_bracket, after_escape, after_field, after_doubled, after_rest,
  left_unmatched, right_unmatched, scan_round, scan_loop, start_scan, scan, is_empty, three_way,
  from_option,
}

-- Not out of fuel, and a value satisfies the predicate.
abbrev pub Yields : {A : Type 0} → (A → Type 0) → Result A → Type 0
Yields P (ok a) = P a
Yields P (error e) = Unit {0}
Yields P undefined = Unit {0}
Yields P out_of_fuel = ⊥

bind-Yields :
    {A B : Type 0} (P : A → Type 0) (Q : B → Type 0) (r : Result A) (f : A → Result B)
    → Yields P r
    → ((a : A) → P a → Yields Q (f a))
    → Yields Q (r >>= f)
bind-Yields P Q (ok a) f h k = k a h
bind-Yields P Q (error e) f h k = tt
bind-Yields P Q undefined f h k = tt
bind-Yields P Q out_of_fuel f h k = elim h [ ]

Yields-intro :
    {A : Type 0} {P : A → Type 0} (r : Result A)
    → InFuel r
    → ((a : A) → r ≡ ok a → P a)
    → Yields P r
Yields-intro (ok a) h k = k a refl
Yields-intro (error e) h k = tt
Yields-intro undefined h k = tt
Yields-intro out_of_fuel h k = elim h [ ]

shown-Yields : (mode : Mode) (s : Spec) → Yields (λ b. Unit {0}) (shown mode s)
unfolding shown
shown-Yields checking s = tt
shown-Yields noop s = tt
shown-Yields colorizing s = let r = render-total s in subst (Yields (λ b. Unit {0})) (sym r.1) tt

close_field-Yields : (s : Bytes) → Yields (λ rest. length rest ≤ length s) (close_field s)
close_field-Yields [] = tt
close_field-Yields (c ∷ s) =
    if-elim (Yields (λ (rest : Bytes). length rest ≤ suc (length s))) (c == b']') (ok s)
      (error ColorizeError.unmatched_left_brace) (λ e. omega arith) (λ e. tt)

abbrev pub Within : ℕ → Scanner → Type 0
Within n s = length (Scanner.text s) ≤ n

pub field-Yields :
    (mode : Mode) (s : Bytes) → Yields (λ f. length f.1 ≤ length s) (on_replacement_field mode s)
unfolding on_replacement_field
field-Yields mode s =
    if-elim (Yields (λ (f : Bytes × Bytes). length f.1 ≤ length s)) (is_at b']' 0 s) _ _ (λ e. tt)
      (λ e.
        bind-Yields (λ p. length p.1 ≤ length s) (λ (f : Bytes × Bytes). length f.1 ≤ length s)
          (do_parse s) _ (Yields-intro (do_parse s) (do_parse-InFuel s) (do_parse-length s))
          (λ p h.
            bind-Yields (λ b. Unit {0}) _ (shown mode p.0) _ (shown-Yields mode p.0)
              (λ b u.
                bind-Yields (λ rest. length rest ≤ length p.1) _ (close_field p.1) _
                  (close_field-Yields p.1) (λ rest l. omega (arith, l, h)))))

left-Yields :
    (mode : Mode) (s : Scanner) (l n : ℕ)
    → length (Scanner.text s) ≡ suc n
    → Yields (Within n) (on_left_bracket mode s l)
unfolding on_left_bracket after_escape after_field
left-Yields mode s l n h =
    if-elim (Yields (Within n)) (left_unmatched s l) (error ColorizeError.unmatched_left_bracket)
      (if is_at b'[' (suc l) (Scanner.text s)
        then ok (after_escape mode s l)
        else on_replacement_field mode (drop (suc l) (Scanner.text s)) >>= λ f.
            ok (after_field mode s l f))
      (λ e. tt)
      (λ e.
        if-elim (Yields (Within n)) (is_at b'[' (suc l) (Scanner.text s))
          (ok (after_escape mode s l))
          (on_replacement_field mode (drop (suc l) (Scanner.text s)) >>= λ f.
            ok (after_field mode s l f))
          (λ e. omega (arith, length-drop (suc (suc l)) (Scanner.text s), h))
          (λ e.
            bind-Yields (λ f. length f.1 ≤ length (drop (suc l) (Scanner.text s))) (Within n)
              (on_replacement_field mode (drop (suc l) (Scanner.text s)))
              (λ f. ok (after_field mode s l f)) (field-Yields mode (drop (suc l) (Scanner.text s)))
              (λ f m. omega (arith, m, length-drop (suc l) (Scanner.text s), h))))

right-Yields :
    (mode : Mode) (s : Scanner) (r n : ℕ)
    → length (Scanner.text s) ≡ suc n
    → Yields (Within n) (on_right_bracket mode s r)
unfolding on_right_bracket after_doubled
right-Yields mode s r n h =
    if-elim (Yields (Within n)) (right_unmatched s r) (error ColorizeError.unmatched_right_bracket)
      (ok (after_doubled mode s r)) (λ e. tt)
      (λ e. omega (arith, length-drop (suc (suc r)) (Scanner.text s), h))

-- The cases of a round, one for each order of the two positions.
pub round-cases :
    (P : Result Scanner → Type 0) (mode : Mode) (s : Scanner)
    → (three_way (Scanner.left_bracket s) (Scanner.right_bracket s) ≡ Ordering.eq
        → P (ok (after_rest mode s)))
    → (three_way (Scanner.left_bracket s) (Scanner.right_bracket s) ≡ Ordering.lt
        → P (on_left_bracket mode s (from_option (Scanner.left_bracket s))))
    → (three_way (Scanner.left_bracket s) (Scanner.right_bracket s) ≡ Ordering.gt
        → P (on_right_bracket mode s (from_option (Scanner.right_bracket s))))
    → P (scan_round mode s)
unfolding scan_round
round-cases P mode s e l g =
    by_order (three_way (Scanner.left_bracket s) (Scanner.right_bracket s)) refl
  where
    by_order :
        (o : Ordering)
        → three_way (Scanner.left_bracket s) (Scanner.right_bracket s) ≡ o
        → P (elim o as (λ o. Result Scanner) [
          | Ordering.eq ↦ ok (after_rest mode s)
          | Ordering.lt ↦ on_left_bracket mode s (from_option (Scanner.left_bracket s))
          | Ordering.gt ↦ on_right_bracket mode s (from_option (Scanner.right_bracket s))
        ])
    by_order Ordering.eq h = e h
    by_order Ordering.lt h = l h
    by_order Ordering.gt h = g h

round-Yields :
    (mode : Mode) (s : Scanner) (n : ℕ)
    → length (Scanner.text s) ≡ suc n
    → Yields (Within n) (scan_round mode s)
unfolding after_rest
round-Yields mode s n h =
    round-cases (Yields (Within n)) mode s (λ e. omega arith) (λ e. left-Yields mode s _ n h)
      (λ e. right-Yields mode s _ n h)

Yields-InFuel : {A : Type 0} (P : A → Type 0) (r : Result A) → Yields P r → InFuel r
Yields-InFuel P (ok a) h = tt
Yields-InFuel P (error e) h = tt
Yields-InFuel P undefined h = tt
Yields-InFuel P out_of_fuel h = elim h [ ]

InFuel-Yields : {A : Type 0} (r : Result A) → InFuel r → Yields (λ a. Unit {0}) r
InFuel-Yields (ok a) h = tt
InFuel-Yields (error e) h = tt
InFuel-Yields undefined h = tt
InFuel-Yields out_of_fuel h = elim h [ ]

is_empty-length : (s : Bytes) → is_empty s ≡ false → (n : ℕ) × (length s ≡ suc n)
is_empty-length [] e = cc
is_empty-length (c ∷ s) e = (length s, refl)

loop-InFuel :
    (fuel : ℕ) (mode : Mode) (s : Scanner)
    → length (Scanner.text s) ≤ fuel
    → InFuel (scan_loop fuel mode s)
unfolding scan_loop
loop-InFuel zero mode s h =
    if-elim InFuel (is_empty (Scanner.text s)) (ok (Scanner.out s)) out_of_fuel (λ e. tt)
      (λ e. let n = is_empty-length (Scanner.text s) e in absurd (omega (arith, n.1, h)))
loop-InFuel (suc fuel) mode s h =
    if-elim InFuel (is_empty (Scanner.text s)) (ok (Scanner.out s))
      (scan_round mode s >>= scan_loop fuel mode) (λ e. tt)
      (λ e.
        let n = is_empty-length (Scanner.text s) e in
        Yields-InFuel (λ b. Unit {0}) _
          (bind-Yields (Within n.0) (λ b. Unit {0}) (scan_round mode s) (scan_loop fuel mode)
            (round-Yields mode s n.0 n.1)
            (λ s' w. InFuel-Yields _ (loop-InFuel fuel mode s' (omega (arith, w, n.1, h))))))

-- One round for every byte of a text is enough for a scanner to return, to throw or to come to
-- undefined behaviour.
scan-InFuel : (mode : Mode) (fmt : Bytes) → InFuel (scan mode fmt)
unfolding scan start_scan
scan-InFuel mode fmt = loop-InFuel (length fmt) mode (start_scan fmt) (omega arith)
