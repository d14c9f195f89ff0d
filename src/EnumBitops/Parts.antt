-- ===== src/EnumBitops/Parts.antt =====
-- parse_flags at a text of parts with a delimiter of one byte between them.
use yk_util.Base.{
  ℕ, zero, suc, ◌≡◌, refl, sym, ap, ◌∙◌, Bool, true, false, not, ◌&&◌, ◌||◌, List, [], ◌∷◌, ◌++◌,
  max, arith, ◌==◌, ==_refl, if◌then◌else◌, append_assoc, append-nil, Bool-cases, inl, inr, ◌⊎◌,
}
use yk_util.Colorize.Bytes.{Bytes, after_prefix}
use yk_util.EnumBitops.{union, split_from, split, parse_parts, parse_flags}
use yk_util.EnumBitops.Flags.{flag, flag-union}

abbrev pub lacks : ℕ → Bytes → Bool
lacks c [] = true
lacks c (x ∷ xs) = not (c == x) && lacks c xs

abbrev pub all_lack : ℕ → List Bytes → Bool
all_lack c [] = true
all_lack c (p ∷ ps) = lacks c p && all_lack c ps

-- The parts from `p` on, with `c` between them.
abbrev pub join : ℕ → Bytes → List Bytes → Bytes
join c p [] = p
join c p (q ∷ ps) = p ++ (c ∷ join c q ps)

no_flag : (i : ℕ) → flag 0 i ≡ 0
no_flag zero = refl
no_flag (suc i) = no_flag i

module _ (parse : Bytes → ℕ) where
  abbrev pub some_unknown : List Bytes → Bool
  some_unknown [] = false
  some_unknown (p ∷ ps) = parse p == 0 || some_unknown ps

  -- The flag that some of the parts stands for.
  abbrev pub flag_of : List Bytes → ℕ → ℕ
  flag_of [] i = 0
  flag_of (p ∷ ps) i = max (flag (parse p) i) (flag_of ps i)

  parse_parts-flag :
      (res : ℕ) (ps : List Bytes) (i : ℕ)
      → some_unknown ps ≡ false
      → flag (parse_parts parse res ps) i ≡ max (flag res i) (flag_of ps i)
  unfolding parse_parts
  parse_parts-flag res [] i e = omega arith
  parse_parts-flag res (p ∷ ps) i e =
      ground (arith, e, parse_parts-flag (union res (parse p)) ps i, flag-union res (parse p) i)

  parse_parts-unknown :
      (res : ℕ) (ps : List Bytes) → some_unknown ps ≡ true → parse_parts parse res ps ≡ 0
  unfolding parse_parts
  parse_parts-unknown res [] e = cc
  parse_parts-unknown res (p ∷ ps) e =
      ground (arith, e, parse_parts-unknown (union res (parse p)) ps)

passes :
    (c : ℕ) (acc : Bytes) (x : ℕ) (s : Bytes)
    → (c == x) ≡ false
    → split_from (c ∷ []) 0 acc (x ∷ s) ≡ split_from (c ∷ []) 0 (acc ++ (x ∷ [])) s
unfolding split_from after_prefix
passes c acc x s e = ground (arith, e)

meets :
    (c : ℕ) (acc s : Bytes) → split_from (c ∷ []) 0 acc (c ∷ s) ≡ acc ∷ split_from (c ∷ []) 0 [] s
unfolding split_from after_prefix
meets c acc s = ground (arith, ==_refl c)

reads_part :
    (c : ℕ) (acc p s : Bytes)
    → lacks c p ≡ true
    → split_from (c ∷ []) 0 acc (p ++ s) ≡ split_from (c ∷ []) 0 (acc ++ p) s
unfolding split_from after_prefix
reads_part c acc [] s e = ap (λ t. split_from (c ∷ []) 0 t s) (sym (append-nil acc))
reads_part c acc (x ∷ p) s e =
    passes c acc x (p ++ s) (ground (arith, e))
    ∙ reads_part c (acc ++ (x ∷ [])) p s (ground (arith, e))
    ∙ ap (λ t. split_from (c ∷ []) 0 t s) (append_assoc acc (x ∷ []) p)

split_from-join :
    (c : ℕ) (p : Bytes) (ps : List Bytes)
    → all_lack c (p ∷ ps) ≡ true
    → split_from (c ∷ []) 0 [] (join c p ps) ≡ p ∷ ps
unfolding split_from
split_from-join c p [] e =
    ap (split_from (c ∷ []) 0 []) (sym (append-nil p)) ∙ reads_part c [] p [] (ground (arith, e))
split_from-join c p (q ∷ ps) e =
    reads_part c [] p (c ∷ join c q ps) (ground (arith, e))
    ∙ meets c p (join c q ps)
    ∙ ap (λ ts. p ∷ ts) (split_from-join c q ps (ground (arith, e)))

-- Nothing but the empty part alone joins to no text, of which there is no part.
split-join :
    (c : ℕ) (p : Bytes) (ps : List Bytes)
    → all_lack c (p ∷ ps) ≡ true
    → (split (c ∷ []) (join c p ps) ≡ p ∷ ps)
      ⊎ ((split (c ∷ []) (join c p ps) ≡ []) × (p ≡ []) × (ps ≡ []))
unfolding split
split-join c [] [] e = inr (refl, refl, refl)
split-join c (x ∷ p) [] e = inl (split_from-join c (x ∷ p) [] e)
split-join c [] (q ∷ ps) e = inl (split_from-join c [] (q ∷ ps) e)
split-join c (x ∷ p) (q ∷ ps) e = inl (split_from-join c (x ∷ p) (q ∷ ps) e)

parts_flag :
    (parse : Bytes → ℕ) (ps : List Bytes) (i : ℕ)
    → flag (parse_parts parse 0 ps) i ≡ (if some_unknown parse ps then 0 else flag_of parse ps i)
parts_flag parse ps i = elim (Bool-cases (some_unknown parse ps)) [
  | inl bad ↦
      ground (arith, bad, ap (λ n. flag n i) (parse_parts-unknown parse 0 ps bad), no_flag i)
  | inr fine ↦ ground (arith, fine, parse_parts-flag parse 0 ps i fine, no_flag i)
]

-- parse_flags of a text that is some parts with a delimiter of one byte between them, which is
-- in none of the parts, gives no flag if a part is unknown, and else the flags of the parts,
-- given that the empty part is unknown.
pub parse_flags-join :
    (parse : Bytes → ℕ) (c : ℕ) (p : Bytes) (ps : List Bytes) (i : ℕ)
    → parse [] ≡ 0
    → all_lack c (p ∷ ps) ≡ true
    → flag (parse_flags parse (join c p ps) (c ∷ [])) i
      ≡ (if some_unknown parse (p ∷ ps) then 0 else flag_of parse (p ∷ ps) i)
unfolding parse_flags
parse_flags-join parse c p ps i n e = elim (split-join c p ps e) [
  | inl same ↦ ap (λ ts. flag (parse_parts parse 0 ts) i) same ∙ parts_flag parse (p ∷ ps) i
  | inr (nothing, no_text, no_parts) ↦
      ap (λ ts. flag (parse_parts parse 0 ts) i) nothing
      ∙ ground (arith, parts_flag parse [] i, ap parse no_text, n)
]
