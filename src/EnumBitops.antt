-- ===== src/EnumBitops.antt =====
-- include/yk/enum_bitops.hpp and enum_bitops_io.hpp: enumerations whose values are sets of flags. A
-- value is the number of its underlying type, which is unsigned and has `w` bits.
pub mod Flags
pub mod Parts
mod Samples
use Prim.Native.Nat.{bit_and, bit_or, bit_xor}
use yk_util.Base.{
  ℕ, zero, suc, ◌-◌, ◌^◌, Bool, not, ◌&&◌, List, [], ◌∷◌, ◌++◌, Option, none, some, ◌==◌, length,
  if◌then◌else◌,
}
use yk_util.Colorize.Bytes.{Bytes, after_prefix}

-- `operator~`
unfoldable pub complement : ℕ → ℕ → ℕ
complement w a = 2 ^ w - 1 - a

-- `operator|`, `operator&` and `operator^`, and the assignments from them
unfoldable pub union : ℕ → ℕ → ℕ
union a b = bit_or a b

unfoldable pub intersection : ℕ → ℕ → ℕ
intersection a b = bit_and a b

unfoldable pub difference : ℕ → ℕ → ℕ
difference a b = bit_xor a b

unfoldable pub contains : ℕ → ℕ → Bool
contains a b = bit_and a b == b

unfoldable pub contains_any_bit : ℕ → ℕ → Bool
contains_any_bit a b = not (bit_and a b == 0)

-- `std::has_single_bit`
abbrev pub has_single_bit : ℕ → Bool
has_single_bit b = not (b == 0) && bit_and b (b - 1) == 0

-- `none` is the end of its assertion.
unfoldable pub contains_single_bit : ℕ → ℕ → Option Bool
contains_single_bit a b = if has_single_bit b then some (not (bit_and a b == 0)) else none

-- The parts of std::views::split: `part` has been read of the current one, and `skip` bytes of a
-- delimiter are still to be passed over.
unfoldable pub split_from : Bytes → ℕ → Bytes → Bytes → List Bytes
split_from delim skip part [] = part ∷ []
split_from delim (suc skip) part (c ∷ s) = split_from delim skip part s
split_from delim zero part (c ∷ s) =
    let rest = split_from delim (length delim - 1) [] s in
    let on = split_from delim 0 (part ++ (c ∷ [])) s in
    elim (after_prefix delim (c ∷ s)) [ none ↦ on | some _ ↦ part ∷ rest ]

-- Nothing has no parts, and an empty delimiter stands between any two bytes.
abbrev pub singles : Bytes → List Bytes
singles [] = []
singles (c ∷ s) = (c ∷ []) ∷ singles s

unfoldable pub split : Bytes → Bytes → List Bytes
unfolding split_from
split delim [] = []
split [] s = singles s
split delim s = split_from delim 0 [] s

-- `bitops_enabled<T>::parse`, which the enumeration provides, gives `T{}` for what it does not know.
module _ (parse : Bytes → ℕ) where
  -- The loop of `parse_flags` with `res`
  unfoldable pub parse_parts : ℕ → List Bytes → ℕ
  unfolding union
  parse_parts res [] = res
  parse_parts res (part ∷ parts) =
      let rest = parse_parts (union res (parse part)) parts in if parse part == 0 then 0 else rest

  unfoldable pub parse_flags : Bytes → Bytes → ℕ
  unfolding parse_parts split
  parse_flags str delim = parse_parts 0 (split delim str)
