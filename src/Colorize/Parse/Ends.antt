-- ===== src/Colorize/Parse/Ends.antt =====
-- Where the loop over the specifiers stops.
use yk_util.Base.{
  ℕ, zero, suc, ◌≤◌, ◌≡◌, ◌≢◌, refl, sym, subst, true, false, ◌||◌, [], ◌∷◌, Option, none, some,
  arith, ◌==◌, length,
}
use yk_util.Colorize.Bytes.{Bytes}
use yk_util.Colorize.Parse.{
  Spec, empty, cut, first, rest_of, skip_bar, round, specifiers, check_reset, clashes, do_parse,
  parse_specifier,
}
use yk_util.Colorize.Parse.Total.{parse_specifier-EndsOr}
use yk_util.Colorize.Result.{ColorizeError, Result, ok, error, undefined, out_of_fuel, ◌>>=◌}
use yk_util.Colorize.Result.Laws.{
  InFuel, bind-InFuel, if-EndsOr, option-EndsOr, bind-ok, ok-injective, if-elim,
}

-- The text begins with a delimiter.
abbrev pub AtDelimiter : Bytes → Type 0
AtDelimiter [] = ⊥
AtDelimiter (c ∷ s) = ((c == b'|') || (c == b']')) ≡ true

abbrev pub AtBracket : Bytes → Type 0
AtBracket [] = ⊥
AtBracket (c ∷ s) = (c == b']') ≡ true

-- What `cut` leaves of `n` bytes.
abbrev Rest : ℕ → Option Bytes → Type 0
Rest n none = Unit {0}
Rest n (some s) = AtDelimiter s × (length s ≤ n)

longer : (n : ℕ) (o : Option Bytes) → Rest n o → Rest (suc n) o
longer n none r = tt
longer n (some s) (d, l) = (d, omega arith)

cut-Rest : (s : Bytes) → Rest (length s) (cut s).1
unfolding cut
cut-Rest [] = tt
cut-Rest (c ∷ s) =
    if-elim (λ (r : Bytes × Option Bytes). Rest (suc (length s)) r.1) ((c == b'|') || (c == b']'))
      ([], some (c ∷ s)) (c ∷ (cut s).0, (cut s).1) (λ e. (e, omega arith))
      (λ e. longer (length s) (cut s).1 (cut-Rest s))

-- Behind a byte that does not end the loop the next delimiter is one of the bytes after it.
pub cut-skip_bar :
    (c : ℕ) (text : Bytes) → (c == b']') ≡ false → (cut (skip_bar (c ∷ text))).1 ≡ (cut text).1
unfolding cut
cut-skip_bar c text h = ground arith

finish-Rest :
    (n : ℕ) (s : Spec) (o : Option Bytes) (p : Spec × Bytes)
    → Rest n o
    → elim o as (λ o. Result (Spec × Bytes)) [ none ↦ undefined | some rest ↦ ok (s, rest) ] ≡ ok p
    → Rest n (some p.1)
finish-Rest n s none p r e = cc
finish-Rest n s (some rest) p r e = subst (λ q. Rest n (some q.1)) (ok-injective e) r

-- A round consumes at least one byte, and goes on at a delimiter.
pub round-Rest :
    (s : Spec) (c : ℕ) (text : Bytes) (p : Spec × Bytes)
    → (c == b']') ≡ false
    → round s (c ∷ text) ≡ ok p
    → AtDelimiter p.1 × (length p.1 ≤ length text)
unfolding round
round-Rest s c text p h e =
    let split =
      bind-ok
        (parse_specifier (first (rest_of (cut (skip_bar (c ∷ text))).1)) s
          (cut (skip_bar (c ∷ text))).0)
        (λ s'. elim (cut (skip_bar (c ∷ text))).1 as (λ o. Result (Spec × Bytes)) [
          | none ↦ undefined
          | some rest ↦ ok (s', rest)
        ])
        p e in
    finish-Rest (length text) split.0 (cut (skip_bar (c ∷ text))).1 p
      (subst (Rest (length text)) (sym (cut-skip_bar c text h)) (cut-Rest text)) split.2

round-InFuel : (s : Spec) (text : Bytes) → InFuel (round s text)
unfolding round
round-InFuel s text =
    bind-InFuel _ _ (parse_specifier-EndsOr (Unit {0}) _ (λ e. tt) s _)
      (λ s' h. option-EndsOr (Unit {0}) (cut (skip_bar text)).1 _ _ tt (λ rest. tt))

-- The fuel of the loop is enough for a text that is not longer.
pub specifiers-InFuel :
    (fuel : ℕ) (s : Spec) (text : Bytes) → length text ≤ fuel → InFuel (specifiers fuel s text)
unfolding specifiers
specifiers-InFuel fuel s [] l = tt
specifiers-InFuel zero s (c ∷ text) l = absurd (omega (arith, l))
specifiers-InFuel (suc fuel) s (c ∷ text) l =
    if-elim InFuel (c == b']') _ _ (λ e. tt)
      (λ e.
        bind-InFuel _ _ (round-InFuel s (c ∷ text))
          (λ p h. specifiers-InFuel fuel p.0 p.1 (omega (arith, (round-Rest s c text p e h).1))))

check_reset-InFuel : (p : Spec × Bytes) → InFuel (check_reset p)
unfolding check_reset
check_reset-InFuel p =
    if-EndsOr (Unit {0}) (clashes p.0) (error ColorizeError.reset_not_alone) (ok p) tt tt

-- do_parse always ends: the fuel that it gives its loop is enough for every text.
pub do_parse-InFuel : (text : Bytes) → InFuel (do_parse text)
unfolding do_parse
do_parse-InFuel text =
    bind-InFuel _ _ (specifiers-InFuel (length text) empty text (omega arith))
      (λ p h. check_reset-InFuel p)

delimiter-nonempty : (s : Bytes) → AtDelimiter s → s ≢ []
delimiter-nonempty [] d = elim d [ ]
delimiter-nonempty (c ∷ s) d = λ e. cc

checked : (p q : Spec × Bytes) → check_reset p ≡ ok q → p ≡ q
unfolding check_reset
checked p q =
    if-elim (λ r. r ≡ ok q → p ≡ q) (clashes p.0) (error ColorizeError.reset_not_alone) (ok p)
      (λ b e. cc) (λ b e. ok-injective e)

specifiers-AtBracket :
    (fuel : ℕ) (s : Spec) (text : Bytes) (p : Spec × Bytes)
    → text ≢ []
    → specifiers fuel s text ≡ ok p
    → AtBracket p.1
unfolding specifiers
specifiers-AtBracket fuel s [] p ne = absurd (ne refl)
specifiers-AtBracket zero s (c ∷ text) p ne =
    if-elim (λ r. r ≡ ok p → AtBracket p.1) (c == b']') (ok (s, c ∷ text)) out_of_fuel
      (λ b e. subst (λ q. AtBracket q.1) (ok-injective e) b) (λ b e. cc)
specifiers-AtBracket (suc fuel) s (c ∷ text) p ne =
    if-elim (λ r. r ≡ ok p → AtBracket p.1) (c == b']') (ok (s, c ∷ text))
      (round s (c ∷ text) >>= λ p. specifiers fuel p.0 p.1)
      (λ b e. subst (λ q. AtBracket q.1) (ok-injective e) b)
      (λ b e.
        let r = bind-ok (round s (c ∷ text)) (λ p. specifiers fuel p.0 p.1) p e in
        specifiers-AtBracket fuel r.0.0 r.0.1 p
          (delimiter-nonempty r.0.1 (round-Rest s c text r.0 b r.1).0) r.2)

-- When do_parse returns on a text that is not empty, it has stopped at a closing bracket.
pub do_parse-AtBracket :
    (text : Bytes) (p : Spec × Bytes) → text ≢ [] → do_parse text ≡ ok p → AtBracket p.1
unfolding do_parse check_reset
do_parse-AtBracket text p ne e =
    let r = bind-ok (specifiers (length text) empty text) check_reset p e in
    subst (λ q. AtBracket q.1) (checked r.0 p r.2)
      (specifiers-AtBracket (length text) empty text r.0 ne r.1)

same_length :
    (s : Spec) (text : Bytes) (p : Spec × Bytes) → ok (s, text) ≡ ok p → length p.1 ≤ length text
same_length s text p e = subst (λ q. length q.1 ≤ length text) (ok-injective e) (omega arith)

specifiers-length :
    (fuel : ℕ) (s : Spec) (text : Bytes) (p : Spec × Bytes)
    → specifiers fuel s text ≡ ok p
    → length p.1 ≤ length text
unfolding specifiers
specifiers-length fuel s [] p = same_length s [] p
specifiers-length zero s (c ∷ text) p =
    if-elim (λ r. r ≡ ok p → length p.1 ≤ suc (length text)) (c == b']') (ok (s, c ∷ text))
      out_of_fuel (λ b e. same_length s (c ∷ text) p e) (λ b e. cc)
specifiers-length (suc fuel) s (c ∷ text) p =
    if-elim (λ r. r ≡ ok p → length p.1 ≤ suc (length text)) (c == b']') (ok (s, c ∷ text))
      (round s (c ∷ text) >>= λ p. specifiers fuel p.0 p.1) (λ b e. same_length s (c ∷ text) p e)
      (λ b e.
        let r = bind-ok (round s (c ∷ text)) (λ p. specifiers fuel p.0 p.1) p e in
        omega (arith, specifiers-length fuel r.0.0 r.0.1 p r.2, (round-Rest s c text r.0 b r.1).1))

pub do_parse-length :
    (text : Bytes) (p : Spec × Bytes) → do_parse text ≡ ok p → length p.1 ≤ length text
unfolding do_parse check_reset
do_parse-length text p e =
    let r = bind-ok (specifiers (length text) empty text) check_reset p e in
    subst (λ q. length q.1 ≤ length text) (checked r.0 p r.2)
      (specifiers-length (length text) empty text r.0 r.1)
