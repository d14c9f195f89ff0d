-- ===== src/Colorize/Scanner/Grammar/Parts.antt =====
-- A text up to its first bracket.
use yk_util.Base.{
  ℕ, ◌≡◌, refl, sym, ap, ◌∙◌, subst, false, [], ◌∷◌, ◌++◌, ◌==◌, Bool-cases, inl, inr, ==_iff,
  append_assoc,
}
use yk_util.Colorize.Bytes.{Bytes}
use yk_util.Colorize.Result.{Result, ok, error, undefined, out_of_fuel}
use yk_util.Colorize.Scanner.{Mode, checking, noop, colorizing, on_chars}
use yk_util.Colorize.Scanner.Brackets.{Free}
use yk_util.Colorize.Scanner.Grammar.{prepend, Reads, other}

pub data Parts : Bytes → Type 0 where
  no_bracket : (u : Bytes) → Free u → Parts u
  left_first : (u t : Bytes) → Free u → Parts (u ++ (b'[' ∷ t))
  right_first : (u t : Bytes) → Free u → Parts (u ++ (b']' ∷ t))

add_byte : (c : ℕ) (s : Bytes) → (c == b'[') ≡ false → (c == b']') ≡ false → Parts s → Parts (c ∷ s)
add_byte c s l r (no_bracket u f) = no_bracket (c ∷ u) (l, r, f)
add_byte c s l r (left_first u t f) = left_first (c ∷ u) t (l, r, f)
add_byte c s l r (right_first u t f) = right_first (c ∷ u) t (l, r, f)

pub parts : (s : Bytes) → Parts s
parts [] = no_bracket [] tt
parts (c ∷ s) = elim (Bool-cases (c == b'[')) [
  | inl l ↦ subst (λ d. Parts (d ∷ s)) (sym ((==_iff c b'[').0 l)) (left_first [] s tt)
  | inr l ↦ elim (Bool-cases (c == b']')) [
    | inl r ↦ subst (λ d. Parts (d ∷ s)) (sym ((==_iff c b']').0 r)) (right_first [] s tt)
    | inr r ↦ add_byte c s l r (parts s)
  ]
]

pub on_chars-append :
    (mode : Mode) (u v : Bytes) → on_chars mode (u ++ v) ≡ on_chars mode u ++ on_chars mode v
on_chars-append checking u v = refl
on_chars-append noop u v = refl
on_chars-append colorizing u v = refl

pub prepend_twice : (a b : Bytes) (r : Result Bytes) → prepend a (prepend b r) ≡ prepend (a ++ b) r
prepend_twice a b (ok o) = ap ok (sym (append_assoc a b o))
prepend_twice a b (error e) = refl
prepend_twice a b undefined = refl
prepend_twice a b out_of_fuel = refl

pub prepend_nothing : (r : Result Bytes) → prepend [] r ≡ r
prepend_nothing (ok o) = refl
prepend_nothing (error e) = refl
prepend_nothing undefined = refl
prepend_nothing out_of_fuel = refl

pub on_chars-nil : (mode : Mode) → on_chars mode [] ≡ []
on_chars-nil checking = refl
on_chars-nil noop = refl
on_chars-nil colorizing = refl

-- The bytes up to the first bracket are read one by one.
pub Reads-Free :
    (mode : Mode) (u t : Bytes) (r : Result Bytes)
    → Free u
    → Reads mode t r
    → Reads mode (u ++ t) (prepend (on_chars mode u) r)
Reads-Free mode [] t r f x =
    subst (Reads mode t) (sym (ap (λ o. prepend o r) (on_chars-nil mode) ∙ prepend_nothing r)) x
Reads-Free mode (c ∷ u) t r (l, k, f) x =
    subst (Reads mode (c ∷ (u ++ t)))
      (prepend_twice (on_chars mode (c ∷ [])) (on_chars mode u) r
        ∙ ap (λ o. prepend o r) (sym (on_chars-append mode (c ∷ []) u)))
      (other c (u ++ t) (prepend (on_chars mode u) r) l k (Reads-Free mode u t r f x))
