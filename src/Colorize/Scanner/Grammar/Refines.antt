-- ===== src/Colorize/Scanner/Grammar/Refines.antt =====
-- The loop of the scanner against the specification of Grammar.
use Prim.Native.Nat.{Ordering}
use yk_util.Base.{
  ℕ, zero, suc, ◌≤◌, ◌≡◌, refl, sym, ap, ◌∙◌, subst, false, not, ◌||◌, [], ◌∷◌, ◌++◌, arith, ◌==◌,
  length, append-nil, Bool-cases, Option-cases, inl, inr, ==_iff,
}
use yk_util.Colorize.Bytes.{Bytes, find}
use yk_util.Colorize.Result.{ColorizeError, ok, error, ◌>>=◌}
use yk_util.Colorize.Scanner.{
  Mode, on_chars, is_at, on_replacement_field, after_rest, scan_loop, start_scan, scan, is_empty,
  three_way,
}
use yk_util.Colorize.Scanner.Brackets.{Free, find-Free, is_at_next, loop-empty}
use yk_util.Colorize.Scanner.Grammar.{prepend, Reads, at_end, right_doubled, right_alone}
use yk_util.Colorize.Scanner.Grammar.Parts.{
  Parts, no_bracket, left_first, right_first, parts, on_chars-append, prepend_nothing, Reads-Free,
}
use yk_util.Colorize.Scanner.Grammar.Rounds.{
  closing, on_right-unmatched, on_right-doubled, closing_round, after_doubled-cached, loop-step,
  round_at,
}
use yk_util.Colorize.Scanner.Grammar.Positions.{cached, Read}
use yk_util.Colorize.Scanner.Grammar.Cases.{
  Next, prepend_thrice, or_true, not_last, shorter, end_Read, refused_Read, escaped_Read,
  field_Read,
}

alone_Read :
    (mode : Mode) (n : ℕ) (u t o : Bytes)
    → Free u
    → is_at b']' 0 t ≡ false
    → Read mode (suc n) (u ++ (b']' ∷ t)) o
alone_Read mode n u t o f e = (
  error ColorizeError.unmatched_right_bracket,
  Reads-Free mode u (b']' ∷ t) _ f (right_alone t e),
  closing_round n mode u t o f
      ∙ ap (λ r. r >>= scan_loop n mode)
          (on_right-unmatched mode (closing u t o) (length u) (
            ap (λ b. (suc (length u) == length (u ++ (b']' ∷ t))) || not b)
              (is_at_next b']' b']' u t ∙ e)
            ∙ or_true (suc (length u) == length (u ++ (b']' ∷ t))))),
)

doubled_Read :
    (mode : Mode) (n : ℕ) (u t o : Bytes)
    → Free u
    → Read mode n t (o ++ on_chars mode (u ++ (b']' ∷ [])))
    → Read mode (suc n) (u ++ (b']' ∷ b']' ∷ t)) o
doubled_Read mode n u t o f (r, x, p) = (
  prepend (on_chars mode u) (prepend (on_chars mode (b']' ∷ [])) r),
  Reads-Free mode u (b']' ∷ b']' ∷ t) _ f (right_doubled t r x),
  closing_round n mode u (b']' ∷ t) o f
      ∙ ap (λ r. r >>= scan_loop n mode)
          (on_right-doubled mode (closing u (b']' ∷ t) o) (length u)
            (λ i. not_last u b']' b']' t i || not (is_at_next b']' b']' u (b']' ∷ t) i)))
      ∙ ap (scan_loop n mode) (after_doubled-cached mode u t o)
      ∙ p
      ∙ ap (λ c. prepend (o ++ c) r) (on_chars-append mode u (b']' ∷ []))
      ∙ prepend_thrice o (on_chars mode u) (on_chars mode (b']' ∷ [])) r,
)

left_Read :
    (mode : Mode) (n : ℕ) (u t o : Bytes)
    → Free u
    → length (u ++ (b'[' ∷ t)) ≤ suc n
    → Next mode n
    → Read mode (suc n) (u ++ (b'[' ∷ t)) o
left_Read mode n u [] o f l next = end_Read mode n u o f
left_Read mode n u (d ∷ t) o f l next = elim (Bool-cases (d == b'[')) [
  | inl k ↦
      subst (λ d. Read mode (suc n) (u ++ (b'[' ∷ d ∷ t)) o) (sym ((==_iff d b'[').0 k))
        (elim (Option-cases (find b']' t)) [
          | inl e ↦ refused_Read mode n u t o f e
          | inr (m, e) ↦ escaped_Read mode n u t o m f e (
              next t (o ++ on_chars mode (u ++ (b'[' ∷ [])))
                (omega (arith, shorter u b'[' (d ∷ t) n l)))
        ])
  | inr k ↦
      field_Read mode n u d t o f k (shorter u b'[' (d ∷ t) n l) next
        (on_replacement_field mode (d ∷ t)) refl
]

right_Read :
    (mode : Mode) (n : ℕ) (u t o : Bytes)
    → Free u
    → length (u ++ (b']' ∷ t)) ≤ suc n
    → Next mode n
    → Read mode (suc n) (u ++ (b']' ∷ t)) o
right_Read mode n u [] o f l next = alone_Read mode n u [] o f refl
right_Read mode n u (d ∷ t) o f l next = elim (Bool-cases (d == b']')) [
  | inl k ↦
      subst (λ d. Read mode (suc n) (u ++ (b']' ∷ d ∷ t)) o) (sym ((==_iff d b']').0 k))
        (doubled_Read mode n u t o f (
          next t (o ++ on_chars mode (u ++ (b']' ∷ [])))
            (omega (arith, shorter u b']' (d ∷ t) n l))))
  | inr k ↦ alone_Read mode n u (d ∷ t) o f k
]

empty_Read : (mode : Mode) (n : ℕ) (o : Bytes) → Read mode n [] o
unfolding find
empty_Read mode n o = (ok [], at_end, loop-empty n mode o ∙ ap ok (sym (append-nil o)))

rest_Read :
    (mode : Mode) (n : ℕ) (u o : Bytes) → Free u → is_empty u ≡ false → Read mode (suc n) u o
unfolding after_rest
rest_Read mode n u o f e = (
  prepend (on_chars mode u) (ok []),
  subst (λ s. Reads mode s (prepend (on_chars mode u) (ok []))) (append-nil u)
      (Reads-Free mode u [] (ok []) f at_end),
  loop-step n mode (cached u o) e
      ∙ ap (λ r. r >>= scan_loop n mode)
          (round_at mode (cached u o) Ordering.eq
            (λ i. three_way ((find-Free u f).0 i) ((find-Free u f).1 i)))
      ∙ loop-empty n mode (o ++ on_chars mode u)
      ∙ ap (λ c. ok (o ++ c)) (sym (append-nil (on_chars mode u))),
)

Parts-Read :
    (mode : Mode) (n : ℕ) (t o : Bytes)
    → Parts t
    → is_empty t ≡ false
    → length t ≤ suc n
    → Next mode n
    → Read mode (suc n) t o
Parts-Read mode n t o (no_bracket u f) e l next = rest_Read mode n u o f e
Parts-Read mode n t o (left_first u s f) e l next = left_Read mode n u s o f l next
Parts-Read mode n t o (right_first u s f) e l next = right_Read mode n u s o f l next

loop_Read : (mode : Mode) (n : ℕ) (t o : Bytes) → length t ≤ n → Read mode n t o
loop_Read mode n [] o l = empty_Read mode n o
loop_Read mode zero (c ∷ t) o l = absurd (omega (arith, l))
loop_Read mode (suc n) (c ∷ t) o l =
    Parts-Read mode n (c ∷ t) o (parts (c ∷ t)) refl l (λ s o' k. loop_Read mode n s o' k)

-- scan, with its cached positions of brackets and its fuel, makes of every text what the
-- specification Reads says, which reads the text from the front: a byte that is no bracket is
-- passed on; [[ with a closing bracket somewhere behind it and ]] are one bracket; [ with
-- anything else behind it is a replacement field, whose error or undefined behaviour ends the
-- scan; a left bracket at the end, [[ without a closing bracket behind it and a single right
-- bracket are errors.
pub scan-Reads : (mode : Mode) (t : Bytes) → Reads mode t (scan mode t)
unfolding scan start_scan
scan-Reads mode t =
    let (r, x, p) = loop_Read mode (length t) t [] (omega arith) in
    subst (Reads mode t) (sym (p ∙ prepend_nothing r)) x
