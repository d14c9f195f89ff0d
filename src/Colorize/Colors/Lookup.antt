-- ===== src/Colorize/Colors/Lookup.antt =====
-- The sorted colour table of include/yk/colorize.hpp against the table as it is written.
use yk_util.Base.{
  ℕ, ◌≡◌, refl, ap, ◌∙◌, sym, subst, true, false, List, [], ◌∷◌, Option, none, some, arith, inl,
  inr, Bool-cases, if◌then◌else◌,
}
use yk_util.Colorize.Bytes.{Bytes, equal, less}
use yk_util.Colorize.Bytes.Order.{
  less_irrefl, less_none, less-equal, less_asym, less_trans, equal→path,
}
use yk_util.Colorize.Colors.{
  ColorPair, color_pairs, insert, sort, lower_bound, color_lookup_table, value_at, name_to_color,
}

-- The colour of the first pair with the given name.
pub listed : List ColorPair → Bytes → Option ℕ
listed [] name = none
listed (p ∷ ps) name = if equal p.0 name then some p.1 else listed ps name

-- No name is less than `name`.
abbrev NoneBelow : Bytes → List ColorPair → Type 0
NoneBelow name [] = Unit {0}
NoneBelow name (p ∷ ps) = (less p.0 name ≡ false) × NoneBelow name ps

abbrev IsSorted : List ColorPair → Type 0
IsSorted [] = Unit {0}
IsSorted (p ∷ ps) = NoneBelow p.0 ps × IsSorted ps

NoneBelow-trans :
    (r p : Bytes) (qs : List ColorPair) → less r p ≡ false → NoneBelow r qs → NoneBelow p qs
NoneBelow-trans r p [] h b = b
NoneBelow-trans r p (q ∷ qs) h (b, bs) = (less_trans q.0 r p b h, NoneBelow-trans r p qs h bs)

insert-NoneBelow :
    (r : Bytes) (p : ColorPair) (qs : List ColorPair)
    → less p.0 r ≡ false
    → NoneBelow r qs
    → NoneBelow r (insert p qs)
unfolding insert
insert-NoneBelow r p [] h b = (h, b)
insert-NoneBelow r p (q ∷ qs) h (b, bs) = elim (Bool-cases (less q.0 p.0)) [
  | inl e ↦
      subst (λ c. NoneBelow r (if c then q ∷ insert p qs else p ∷ q ∷ qs)) (sym e)
        (b, insert-NoneBelow r p qs h bs)
  | inr e ↦
      subst (λ c. NoneBelow r (if c then q ∷ insert p qs else p ∷ q ∷ qs)) (sym e) (h, (b, bs))
]

insert-IsSorted : (p : ColorPair) (qs : List ColorPair) → IsSorted qs → IsSorted (insert p qs)
unfolding insert
insert-IsSorted p [] s = (tt, s)
insert-IsSorted p (q ∷ qs) (b, s) = elim (Bool-cases (less q.0 p.0)) [
  | inl e ↦
      subst (λ c. IsSorted (if c then q ∷ insert p qs else p ∷ q ∷ qs)) (sym e)
        (insert-NoneBelow q.0 p qs (less_asym q.0 p.0 e) b, insert-IsSorted p qs s)
  | inr e ↦
      subst (λ c. IsSorted (if c then q ∷ insert p qs else p ∷ q ∷ qs)) (sym e)
        ((e, NoneBelow-trans q.0 p.0 qs e b), (b, s))
]

sort-IsSorted : (ps : List ColorPair) → IsSorted (sort ps)
unfolding sort
sort-IsSorted [] = tt
sort-IsSorted (p ∷ ps) = insert-IsSorted p (sort ps) (sort-IsSorted ps)

-- Of two names that are not equal at most one is the third.
equal_once : (s t n : Bytes) → less s t ≡ true → equal s n ≡ true → equal t n ≡ false
equal_once s t n h e = subst (λ m. equal t m ≡ false) (equal→path s n e) (apart (less_asym s t h))
  where
    apart : less t s ≡ false → equal t s ≡ false
    apart k = elim (Bool-cases (equal t s)) [
      | inl f ↦
          absurd (ground (arith, subst (λ m. less s m ≡ true) (equal→path t s f) h, less_irrefl s))
      | inr f ↦ f
    ]

listed-insert :
    (p : ColorPair) (qs : List ColorPair) (n : Bytes) → listed (insert p qs) n ≡ listed (p ∷ qs) n
unfolding listed insert
listed-insert p [] n = refl
listed-insert p (q ∷ qs) n = ground (arith, listed-insert p qs n, equal_once q.0 p.0 n)

listed-sort : (ps : List ColorPair) (n : Bytes) → listed (sort ps) n ≡ listed ps n
unfolding listed sort
listed-sort [] n = refl
listed-sort (p ∷ ps) n =
    listed-insert p (sort ps) n ∙ ap (λ o. if equal p.0 n then some p.1 else o) (listed-sort ps n)

not_equal :
    (p n q : Bytes) → less p n ≡ false → equal p n ≡ false → less q p ≡ false → equal q n ≡ false
not_equal p n q h e b = elim (Bool-cases (equal q n)) [
  | inl f ↦
      absurd
        (ground (arith, less_none p n h (subst (λ m. less m p ≡ false) (equal→path q n f) b), e))
  | inr f ↦ f
]

listed-none :
    (p n : Bytes) (qs : List ColorPair)
    → less p n ≡ false
    → equal p n ≡ false
    → NoneBelow p qs
    → listed qs n ≡ none
unfolding listed
listed-none p n [] h e b = refl
listed-none p n (q ∷ qs) h e (b, bs) =
    ground (arith, listed-none p n qs h e bs, not_equal p n q.0 h e b)

value_at-lower_bound :
    (ps : List ColorPair) (n : Bytes) → IsSorted ps → value_at (lower_bound ps n) n ≡ listed ps n
unfolding listed lower_bound
value_at-lower_bound [] n s = refl
value_at-lower_bound (p ∷ ps) n (b, s) =
    ground (arith, value_at-lower_bound ps n s, less-equal p.0 n, listed-none p.0 n ps)

-- name_to_color, which searches the sorted table, finds the value of the first entry with the
-- name in the table as it is written, and nothing for a name that is not in it.
pub name_to_color-listed : (name : Bytes) → name_to_color name ≡ listed color_pairs name
unfolding name_to_color color_lookup_table
name_to_color-listed name =
    value_at-lower_bound (sort color_pairs) name (sort-IsSorted color_pairs)
    ∙ listed-sort color_pairs name
