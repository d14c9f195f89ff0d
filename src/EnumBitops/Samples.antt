-- ===== src/EnumBitops/Samples.antt =====
-- Flags of four bits, named by one letter each.
use yk_util.Base.{
  ℕ, ◌≡◌, refl, ◌↔◌, ◌+◌, ◌-◌, ◌%◌, ◌≤◌, true, [], ◌∷◌, none, max, min, arith, ◌==◌, if◌then◌else◌,
}
use yk_util.Colorize.Bytes.{Bytes, codes, after_prefix}
use yk_util.EnumBitops.{
  complement, union, intersection, difference, contains, contains_single_bit, contains_any_bit,
  split, split_from, parse_flags, parse_parts,
}
use yk_util.EnumBitops.Flags.{flag, operators_by_flag}
use yk_util.EnumBitops.Parts.{join, some_unknown, flag_of, parse_flags-join}

abbrev parse : Bytes → ℕ
parse [] = 0
parse (c ∷ s) = if c == 114 then 1 else if c == 119 then 2 else 0

read_write : parse_flags parse (codes "r,w") (codes ",") ≡ 3
unfolding parse_flags parse_parts split split_from after_prefix union
read_write = refl

unknown : parse_flags parse (codes "r,z") (codes ",") ≡ 0
unfolding parse_flags parse_parts split split_from after_prefix union
unknown = refl

two_bits : contains_single_bit 7 6 ≡ none
unfolding contains_single_bit
two_bits = refl

shared_bit : contains_any_bit 5 6 ≡ true
unfolding contains_any_bit
shared_bit = refl

operators_by_flag_example :
    (flag (union 5 6) 1 ≡ max (flag 5 1) (flag 6 1))
    × (flag (intersection 5 6) 1 ≡ min (flag 5 1) (flag 6 1))
    × (flag (difference 5 6) 1 ≡ (flag 5 1 + flag 6 1) % 2)
    × (flag (complement 4 5) 1 ≡ 1 - flag 5 1)
    × ((contains 5 6 ≡ true) ↔ ((j : ℕ) → flag 6 j ≤ flag 5 j))
operators_by_flag_example = operators_by_flag 4 5 6 1 (omega arith) (omega arith)

parse_flags-join_example :
    flag (parse_flags parse (join 44 (codes "w") (codes "r" ∷ [])) (44 ∷ [])) 1 ≡ (
      if some_unknown parse (codes "w" ∷ codes "r" ∷ [])
      then 0
      else flag_of parse (codes "w" ∷ codes "r" ∷ []) 1)
parse_flags-join_example = parse_flags-join parse 44 (codes "w") (codes "r" ∷ []) 1 refl refl
