-- ===== src/Colorize/Scanner/Grammar/Positions.antt =====
-- The cached positions, in terms of what stands in front of the first bracket.
use mathlib.Core.Option
use yk_util.Base.{
  ℕ, suc, ◌+◌, ◌-◌, ◌≡◌, refl, ap, [], ◌∷◌, ◌++◌, Option, none, some, arith, length, drop, take,
  Option-cases, inl, inr,
}
use yk_util.Colorize.Bytes.{Bytes, find}
use yk_util.Colorize.Result.{Result}
use yk_util.Colorize.Scanner.{Mode, Scanner, scan_loop}
use yk_util.Colorize.Scanner.Brackets.{Free}
use yk_util.Colorize.Scanner.Grammar.{prepend, Reads}

-- A scanner whose cached positions are those of the first brackets.
abbrev pub cached : Bytes → Bytes → Scanner
cached t o = record { text = t; left_bracket = find b'[' t; right_bracket = find b']' t; out = o }

abbrev pub Read : Mode → ℕ → Bytes → Bytes → Type 0
Read mode n t o =
    (r : Result Bytes) × Reads mode t r × (scan_loop n mode (cached t o) ≡ prepend o r)

unfoldable pub shift : ℕ → Option ℕ → Option ℕ
shift k none = none
shift k (some n) = some (k + n)

pub find_left-shift : (u t : Bytes) → Free u → find b'[' (u ++ t) ≡ shift (length u) (find b'[' t)
unfolding find shift
find_left-shift [] t f = elim (Option-cases (find b'[' t)) [
  | inl e ↦ ground arith
  | inr (n, e) ↦ ground arith
]
find_left-shift (c ∷ u) t (l, r, f) = elim (Option-cases (find b'[' t)) [
  | inl e ↦ ground (arith, find_left-shift u t f)
  | inr (n, e) ↦ ground (arith, find_left-shift u t f)
]

pub find_right-shift : (u t : Bytes) → Free u → find b']' (u ++ t) ≡ shift (length u) (find b']' t)
unfolding find shift
find_right-shift [] t f = elim (Option-cases (find b']' t)) [
  | inl e ↦ ground arith
  | inr (n, e) ↦ ground arith
]
find_right-shift (c ∷ u) t (l, r, f) = elim (Option-cases (find b']' t)) [
  | inl e ↦ ground (arith, find_right-shift u t f)
  | inr (n, e) ↦ ground (arith, find_right-shift u t f)
]

-- What is behind an escape, in the positions of the whole text.
pub unshift :
    (k : ℕ) (o : Option ℕ)
    → Option.map (λ r. r - (k + 2)) (shift k (Option.map suc (Option.map suc o))) ≡ o
unfolding shift
unshift k none = refl
unshift k (some n) = ap some (omega arith)

pub drop-2 : (u : Bytes) (c d : ℕ) (t : Bytes) → drop (suc (suc (length u))) (u ++ (c ∷ d ∷ t)) ≡ t
drop-2 [] c d t = refl
drop-2 (x ∷ u) c d t = drop-2 u c d t

pub drop-1 : (u : Bytes) (c : ℕ) (t : Bytes) → drop (suc (length u)) (u ++ (c ∷ t)) ≡ t
drop-1 [] c t = refl
drop-1 (x ∷ u) c t = drop-1 u c t

pub take-0 : (u t : Bytes) → take (length u) (u ++ t) ≡ u
take-0 [] t = refl
take-0 (x ∷ u) t = ap (λ v. x ∷ v) (take-0 u t)

pub take-1 : (u : Bytes) (c : ℕ) (t : Bytes) → take (suc (length u)) (u ++ (c ∷ t)) ≡ u ++ (c ∷ [])
take-1 [] c t = refl
take-1 (x ∷ u) c t = ap (λ v. x ∷ v) (take-1 u c t)
