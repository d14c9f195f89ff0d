-- ===== src/Colorize/Parse/Closed.antt =====
-- do_parse of a text in which a bracket closes the specifiers.
use yk_util.Base.{
  ℕ, zero, suc, ◌≤◌, ◌≡◌, sym, subst, Bool, true, false, not, ◌&&◌, ◌||◌, [], ◌∷◌, Option, none,
  some, arith, ◌==◌, length,
}
use yk_util.Colorize.Bytes.{Bytes}
use yk_util.Colorize.Parse.{
  Spec, empty, cut, first, rest_of, skip_bar, round, specifiers, check_reset, clashes, do_parse,
  parse_specifier,
}
use yk_util.Colorize.Parse.Ends.{AtDelimiter, cut-skip_bar, round-Rest}
use yk_util.Colorize.Parse.Total.{parse_specifier-EndsOr}
use yk_util.Colorize.Result.{ColorizeError, Result, ok, error, undefined, ◌>>=◌}
use yk_util.Colorize.Result.Laws.{EndsIn, bind-EndsIn, Ends-EndsIn, if-elim}

-- A right bracket occurs.
unfoldable pub closes : Bytes → Bool
closes [] = false
closes (c ∷ s) = c == b']' || closes s

-- Behind every left bracket there is a right bracket.
unfoldable pub closed : Bytes → Bool
unfolding closes
closed [] = true
closed (c ∷ s) = (not (c == b'[') || closes s) && closed s

abbrev pub IsGood : Bytes → Type 0
IsGood s = (closes s ≡ true) × (closed s ≡ true)

abbrev Cuts : Option Bytes → Type 0
Cuts none = ⊥
Cuts (some s) = IsGood s × AtDelimiter s

tail-IsGood : (c : ℕ) (s : Bytes) → (c == b']') ≡ false → IsGood (c ∷ s) → IsGood s
unfolding closes closed
tail-IsGood c s e h = ground (arith, e, h)

cut-Cuts : (s : Bytes) → IsGood s → Cuts (cut s).1
unfolding cut closes
cut-Cuts [] h = cc
cut-Cuts (c ∷ s) h =
    if-elim (λ (r : Bytes × Option Bytes). Cuts r.1) ((c == b'|') || (c == b']')) ([], some (c ∷ s))
      (c ∷ (cut s).0, (cut s).1) (λ e. (h, e))
      (λ e. cut-Cuts s (tail-IsGood c s (ground (arith, e)) h))

round-EndsIn :
    (s : Spec) (c : ℕ) (text : Bytes)
    → (c == b']') ≡ false
    → IsGood (c ∷ text)
    → EndsIn (λ p. IsGood p.1) (round s (c ∷ text))
unfolding round
round-EndsIn s c text e h =
    go (cut (skip_bar (c ∷ text))).0 (cut (skip_bar (c ∷ text))).1
      (subst Cuts (sym (cut-skip_bar c text e)) (cut-Cuts text (tail-IsGood c text e h)))
  where
    go :
        (w : Bytes) (o : Option Bytes)
        → Cuts o
        → EndsIn
            (λ (p : Spec × Bytes). IsGood p.1)
            (parse_specifier (first (rest_of o)) s w >>= λ s'.
              elim o as (λ o. Result (Spec × Bytes)) [
                | none ↦ undefined
                | some rest ↦ ok (s', rest)
              ])
    go w none k = elim k [ ]
    go w (some []) k = elim k.1 [ ]
    go w (some (d ∷ r)) k =
        bind-EndsIn (λ s. Unit {0}) _ (parse_specifier (some d) s w) _
          (Ends-EndsIn _ (parse_specifier-EndsOr ⊥ (some d) (λ e. cc) s w)) (λ s' e u. k.0)

specifiers-EndsIn :
    (fuel : ℕ) (s : Spec) (text : Bytes)
    → length text ≤ fuel
    → IsGood text
    → EndsIn (λ p. IsGood p.1) (specifiers fuel s text)
unfolding specifiers
specifiers-EndsIn fuel s [] l h = h
specifiers-EndsIn zero s (c ∷ text) l h = absurd (omega (arith, l))
specifiers-EndsIn (suc fuel) s (c ∷ text) l h =
    if-elim (EndsIn (λ (p : Spec × Bytes). IsGood p.1)) (c == b']') (ok (s, c ∷ text))
      (round s (c ∷ text) >>= λ p. specifiers fuel p.0 p.1) (λ e. h)
      (λ e.
        bind-EndsIn (λ p. IsGood p.1) _ (round s (c ∷ text)) _ (round-EndsIn s c text e h)
          (λ p q g.
            specifiers-EndsIn fuel p.0 p.1 (omega (arith, (round-Rest s c text p e q).1, l)) g))

-- In a text with a right bracket, and one behind every left bracket, do_parse returns a text
-- that is like this again, or throws.
pub do_parse-EndsIn : (text : Bytes) → IsGood text → EndsIn (λ p. IsGood p.1) (do_parse text)
unfolding do_parse check_reset
do_parse-EndsIn text h =
    bind-EndsIn (λ p. IsGood p.1) _ (specifiers (length text) empty text) check_reset
      (specifiers-EndsIn (length text) empty text (omega arith) h)
      (λ p e g.
        if-elim (EndsIn (λ (p : Spec × Bytes). IsGood p.1)) (clashes p.0)
          (error ColorizeError.reset_not_alone) (ok p) (λ e. tt) (λ e. g))
