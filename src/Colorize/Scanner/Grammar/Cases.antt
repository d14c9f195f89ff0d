-- ===== src/Colorize/Scanner/Grammar/Cases.antt =====
-- The cases of a text whose first bracket opens.
use mathlib.Core.Option
use yk_util.Base.{
  ℕ, suc, ◌≤◌, ◌≡◌, refl, sym, ap, ◌∙◌, subst, Bool, true, false, ◌&&◌, ◌||◌, [], ◌∷◌, ◌++◌, none,
  some, arith, ◌==◌, length, length-append,
}
use yk_util.Colorize.Bytes.{Bytes, find}
use yk_util.Colorize.Result.{ColorizeError, Result, ok, error, undefined, out_of_fuel, ◌>>=◌}
use yk_util.Colorize.Scanner.{
  Mode, Scanner, on_chars, is_at, is_npos, on_replacement_field, after_field, scan_loop,
}
use yk_util.Colorize.Scanner.Brackets.{Free, is_at_next}
use yk_util.Colorize.Scanner.Grammar.{
  prepend, left_at_end, left_escaped, left_refused, field, field_error, field_undefined,
}
use yk_util.Colorize.Scanner.Grammar.Parts.{on_chars-append, prepend_twice, Reads-Free}
use yk_util.Colorize.Scanner.Total.{Yields, field-Yields}
use yk_util.Colorize.Scanner.Grammar.Rounds.{
  opening, on_left-unmatched, on_left-escape, on_left-field, opening_round, after_escape-cached,
  after_field-cached,
}
use yk_util.Colorize.Scanner.Grammar.Positions.{cached, Read, shift, drop-1}

abbrev pub Next : Mode → ℕ → Type 0
Next mode n = (t o : Bytes) → length t ≤ n → Read mode n t o

pub prepend_thrice :
    (o a b : Bytes) (r : Result Bytes)
    → prepend (o ++ (a ++ b)) r ≡ prepend o (prepend a (prepend b r))
prepend_thrice o a b r = sym (ap (prepend o) (prepend_twice a b r) ∙ prepend_twice o (a ++ b) r)

pub or_true : (b : Bool) → (b || true) ≡ true
or_true true = refl
or_true false = refl

last_byte : (u : Bytes) (c : ℕ) → (suc (length u) == length (u ++ (c ∷ []))) ≡ true
last_byte u c = ground (arith, length-append u (c ∷ []))

pub not_last :
    (u : Bytes) (c d : ℕ) (t : Bytes) → (suc (length u) == length (u ++ (c ∷ d ∷ t))) ≡ false
not_last u c d t = ground (arith, length-append u (c ∷ d ∷ t))

pub shorter : (u : Bytes) (c : ℕ) (t : Bytes) (n : ℕ) → length (u ++ (c ∷ t)) ≤ suc n → length t ≤ n
shorter u c t n h = omega (arith, h, length-append u (c ∷ t))

pub end_Read : (mode : Mode) (n : ℕ) (u o : Bytes) → Free u → Read mode (suc n) (u ++ (b'[' ∷ [])) o
end_Read mode n u o f = (
  error ColorizeError.unmatched_left_bracket,
  Reads-Free mode u (b'[' ∷ []) _ f left_at_end,
  opening_round n mode u [] o f
      ∙ ap (λ r. r >>= scan_loop n mode)
          (on_left-unmatched mode (opening u [] o) (length u) (
            ap
              (λ b.
                b
                || (is_npos (Scanner.right_bracket (opening u [] o))
                    && is_at b'[' (suc (length u)) (u ++ (b'[' ∷ []))))
              (last_byte u b'['))),
)

pub refused_Read :
    (mode : Mode) (n : ℕ) (u t o : Bytes)
    → Free u
    → find b']' t ≡ none
    → Read mode (suc n) (u ++ (b'[' ∷ b'[' ∷ t)) o
unfolding find shift
refused_Read mode n u t o f e = (
  error ColorizeError.unmatched_left_bracket,
  Reads-Free mode u (b'[' ∷ b'[' ∷ t) _ f (left_refused t e),
  opening_round n mode u (b'[' ∷ t) o f
      ∙ ap (λ r. r >>= scan_loop n mode)
          (on_left-unmatched mode (opening u (b'[' ∷ t) o) (length u) (
            (λ i.
              (suc (length u) == length (u ++ (b'[' ∷ b'[' ∷ t)))
              || (is_npos (shift (length u) (Option.map suc (Option.map suc (e i))))
                  && is_at_next b'[' b'[' u (b'[' ∷ t) i))
            ∙ or_true _)),
)

pub escaped_Read :
    (mode : Mode) (n : ℕ) (u t o : Bytes) (m : ℕ)
    → Free u
    → find b']' t ≡ some m
    → Read mode n t (o ++ on_chars mode (u ++ (b'[' ∷ [])))
    → Read mode (suc n) (u ++ (b'[' ∷ b'[' ∷ t)) o
unfolding find shift
escaped_Read mode n u t o m f e (r, x, p) = (
  prepend (on_chars mode u) (prepend (on_chars mode (b'[' ∷ [])) r),
  Reads-Free mode u (b'[' ∷ b'[' ∷ t) _ f (left_escaped t m r e x),
  opening_round n mode u (b'[' ∷ t) o f
      ∙ ap (λ r. r >>= scan_loop n mode)
          (on_left-escape mode (opening u (b'[' ∷ t) o) (length u)
            (λ i.
              not_last u b'[' b'[' t i
              || (is_npos (shift (length u) (Option.map suc (Option.map suc (e i))))
                  && is_at b'[' (suc (length u)) (u ++ (b'[' ∷ b'[' ∷ t))))
            (is_at_next b'[' b'[' u (b'[' ∷ t)))
      ∙ ap (scan_loop n mode) (after_escape-cached mode u t o)
      ∙ p
      ∙ ap (λ c. prepend (o ++ c) r) (on_chars-append mode u (b'[' ∷ []))
      ∙ prepend_thrice o (on_chars mode u) (on_chars mode (b'[' ∷ [])) r,
)

and_false : (b : Bool) → (b && false) ≡ false
and_false true = refl
and_false false = refl

-- The round at a field, up to what on_replacement_field makes of it.
field_round :
    (mode : Mode) (n : ℕ) (u : Bytes) (d : ℕ) (t o : Bytes) (x : Result (Bytes × Bytes))
    → Free u
    → (d == b'[') ≡ false
    → on_replacement_field mode (d ∷ t) ≡ x
    → scan_loop (suc n) mode (cached (u ++ (b'[' ∷ d ∷ t)) o)
      ≡ (x >>= λ f. ok (after_field mode (opening u (d ∷ t) o) (length u) f) >>= scan_loop n mode)
field_round mode n u d t o x f k e =
    opening_round n mode u (d ∷ t) o f
    ∙ ap (λ r. r >>= scan_loop n mode)
        (on_left-field mode (opening u (d ∷ t) o) (length u)
          ((λ i.
              not_last u b'[' d t i
              || (is_npos (Scanner.right_bracket (opening u (d ∷ t) o))
                  && (is_at_next b'[' b'[' u (d ∷ t) ∙ k) i))
            ∙ and_false (is_npos (Scanner.right_bracket (opening u (d ∷ t) o))))
          (is_at_next b'[' b'[' u (d ∷ t) ∙ k))
    ∙ ap
        (λ r.
          (r >>= λ f. ok (after_field mode (opening u (d ∷ t) o) (length u) f))
          >>= scan_loop n mode)
        (ap (on_replacement_field mode) (drop-1 u b'[' (d ∷ t)) ∙ e)
    ∙ regroup x
  where
    regroup :
        (x : Result (Bytes × Bytes))
        → ((x >>= λ f. ok (after_field mode (opening u (d ∷ t) o) (length u) f))
            >>= scan_loop n mode)
          ≡ (x >>= λ f.
              ok (after_field mode (opening u (d ∷ t) o) (length u) f) >>= scan_loop n mode)
    regroup (ok g) = refl
    regroup (error e) = refl
    regroup undefined = refl
    regroup out_of_fuel = refl

pub field_Read :
    (mode : Mode) (n : ℕ) (u : Bytes) (d : ℕ) (t o : Bytes)
    → Free u
    → (d == b'[') ≡ false
    → length (d ∷ t) ≤ n
    → Next mode n
    → (x : Result (Bytes × Bytes)) → on_replacement_field mode (d ∷ t) ≡ x
    → Read mode (suc n) (u ++ (b'[' ∷ d ∷ t)) o
field_Read mode n u d t o f k l next (ok g) e =
    let short : length g.1 ≤ length (d ∷ t) =
      subst (Yields (λ (g : Bytes × Bytes). length g.1 ≤ length (d ∷ t))) e
        (field-Yields mode (d ∷ t)) in
    let (r, x, p) = next g.1 (o ++ (on_chars mode u ++ g.0)) (omega (arith, short, l)) in
    (
      prepend (on_chars mode u) (prepend g.0 r),
      Reads-Free mode u (b'[' ∷ d ∷ t) _ f (field d t g r k e x),
      field_round mode n u d t o (ok g) f k e
          ∙ ap (scan_loop n mode) (after_field-cached mode u (d ∷ t) o g)
          ∙ p
          ∙ prepend_thrice o (on_chars mode u) g.0 r,
    )
field_Read mode n u d t o f k l next (error c) e = (
  error c,
  Reads-Free mode u (b'[' ∷ d ∷ t) _ f (field_error d t c k e),
  field_round mode n u d t o (error c) f k e,
)
field_Read mode n u d t o f k l next undefined e = (
  undefined,
  Reads-Free mode u (b'[' ∷ d ∷ t) _ f (field_undefined d t k e),
  field_round mode n u d t o undefined f k e,
)
field_Read mode n u d t o f k l next out_of_fuel e = absurd (
    subst (Yields (λ (g : Bytes × Bytes). length g.1 ≤ length (d ∷ t))) e
      (field-Yields mode (d ∷ t)))
