-- ===== src/Colorize/Scanner/Closed.antt =====
-- The scanners on a text whose replacement fields are closed.
use yk_util.Base.{ℕ, ◌≡◌, sym, subst, true, [], ◌∷◌, arith, ◌==◌}
use yk_util.Colorize.Bytes.{Bytes}
use yk_util.Colorize.Parse.{Spec, do_parse}
use yk_util.Colorize.Parse.Closed.{closed, IsGood, do_parse-EndsIn}
use yk_util.Colorize.Render.Total.{render-total}
use yk_util.Colorize.Result.{ColorizeError, Result, ok, error}
use yk_util.Colorize.Result.Laws.{Ends, EndsIn, bind-EndsOr, bind-EndsIn, if-elim}
use yk_util.Colorize.Scanner.{
  Mode, checking, noop, colorizing, shown, is_at, close_field, on_replacement_field, scan,
}
use yk_util.Colorize.Scanner.Grammar.{
  prepend, Reads, at_end, other, left_at_end, left_escaped, left_refused, field, field_error,
  field_undefined, right_doubled, right_alone,
}
use yk_util.Colorize.Scanner.Grammar.Refines.{scan-Reads}

abbrev IsClosed : Bytes → Type 0
IsClosed s = closed s ≡ true

shown-EndsIn : (mode : Mode) (s : Spec) → EndsIn (λ b. Unit {0}) (shown mode s)
unfolding shown
shown-EndsIn checking s = tt
shown-EndsIn noop s = tt
shown-EndsIn colorizing s = let r = render-total s in subst (EndsIn (λ b. Unit {0})) (sym r.1) tt

tail-IsClosed : (c : ℕ) (s : Bytes) → IsClosed (c ∷ s) → IsClosed s
unfolding closed
tail-IsClosed c s h = ground (arith, h)

close_field-EndsIn : (s : Bytes) → IsClosed s → EndsIn IsClosed (close_field s)
close_field-EndsIn [] h = tt
close_field-EndsIn (c ∷ s) h =
    if-elim (EndsIn IsClosed) (c == b']') (ok s) (error ColorizeError.unmatched_left_brace)
      (λ e. tail-IsClosed c s h) (λ e. tt)

field-EndsIn :
    (mode : Mode) (s : Bytes) → IsGood s → EndsIn (λ f. IsClosed f.1) (on_replacement_field mode s)
unfolding on_replacement_field
field-EndsIn mode s h =
    if-elim (EndsIn (λ (f : Bytes × Bytes). IsClosed f.1)) (is_at b']' 0 s) _ _ (λ e. tt)
      (λ e.
        bind-EndsIn (λ p. IsGood p.1) _ (do_parse s) _ (do_parse-EndsIn s h)
          (λ p q g.
            bind-EndsIn (λ b. Unit {0}) _ (shown mode p.0) _ (shown-EndsIn mode p.0)
              (λ w q u.
                bind-EndsIn IsClosed _ (close_field p.1) _ (close_field-EndsIn p.1 g.1)
                  (λ rest q k. k))))

field-IsGood : (s : Bytes) → IsClosed (b'[' ∷ s) → IsGood s
unfolding closed
field-IsGood s h = ground (arith, h)

prepend-Ends : (o : Bytes) (r : Result Bytes) → Ends r → Ends (prepend o r)
prepend-Ends o r h = bind-EndsOr ⊥ r _ h (λ a e. tt)

Reads-Ends : (mode : Mode) (t : Bytes) (r : Result Bytes) → Reads mode t r → IsClosed t → Ends r
Reads-Ends mode t r at_end h = tt
Reads-Ends mode t r (other c s q e f x) h =
    prepend-Ends _ q (Reads-Ends mode s q x (tail-IsClosed c s h))
Reads-Ends mode t r left_at_end h = tt
Reads-Ends mode t r (left_escaped s n q e x) h =
    prepend-Ends _ q
      (Reads-Ends mode s q x (tail-IsClosed b'[' s (tail-IsClosed b'[' (b'[' ∷ s) h)))
Reads-Ends mode t r (left_refused s e) h = tt
Reads-Ends mode t r (field d s f q n e x) h = prepend-Ends _ q (
    Reads-Ends mode f.1 q x
      (subst (EndsIn (λ f. IsClosed f.1)) e (field-EndsIn mode (d ∷ s) (field-IsGood (d ∷ s) h))))
Reads-Ends mode t r (field_error d s e n f) h = tt
Reads-Ends mode t r (field_undefined d s n e) h =
    subst (EndsIn (λ f. IsClosed f.1)) e (field-EndsIn mode (d ∷ s) (field-IsGood (d ∷ s) h))
Reads-Ends mode t r (right_doubled s q x) h =
    prepend-Ends _ q
      (Reads-Ends mode s q x (tail-IsClosed b']' s (tail-IsClosed b']' (b']' ∷ s) h)))
Reads-Ends mode t r (right_alone s e) h = tt

-- On a text in which a right bracket stands somewhere behind every left bracket, a scanner of
-- any of the three kinds returns or throws a colorize_error: it meets no undefined behaviour
-- (npos added to a position, a read past the end of the text), and one round for every byte is
-- enough fuel for its loop and for the loop over the specifiers.
pub scan-Ends : (mode : Mode) (fmt : Bytes) → closed fmt ≡ true → Ends (scan mode fmt)
scan-Ends mode fmt h = Reads-Ends mode fmt (scan mode fmt) (scan-Reads mode fmt) h
