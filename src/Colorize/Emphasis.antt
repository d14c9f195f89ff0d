-- ===== src/Colorize/Emphasis.antt =====
-- `emphasis` of include/yk/colorize.hpp, its names, its numbers on a terminal, and `each_bit` of
-- include/yk/enum_bitops_algorithm.hpp at it. A set of emphases is the byte of the enumeration.
pub mod Laws
use Prim.Native.Nat.{bit_and, bit_or}
use yk_util.Base.{
  ℕ, zero, suc, ◌/◌, ◌^◌, Bool, List, [], ◌∷◌, Option, none, some, map, if◌then◌else◌, ◌==◌,
}
use yk_util.Colorize.Bytes.{Bytes, codes, equal}

pub data Emphasis : Type 0 where
  bold faint italic underline blink reverse conceal strike : Emphasis

abbrev pub emphasis_bit : Emphasis → ℕ
emphasis_bit bold = 0
emphasis_bit faint = 1
emphasis_bit italic = 2
emphasis_bit underline = 3
emphasis_bit blink = 4
emphasis_bit reverse = 5
emphasis_bit conceal = 6
emphasis_bit strike = 7

-- the enumerator: `1 << n`
unfoldable pub value : Emphasis → ℕ
value e = 2 ^ emphasis_bit e

-- `none` is `emphasis{}`
unfoldable pub name_to_emphasis : Bytes → Option Emphasis
name_to_emphasis name =
    if equal name (codes "bold")
    then some bold
    else if equal name (codes "faint")
    then some faint
    else if equal name (codes "italic")
    then some italic
    else if equal name (codes "underline")
    then some underline
    else if equal name (codes "blink")
    then some blink
    else if equal name (codes "reverse")
    then some reverse
    else if equal name (codes "conceal")
    then some conceal
    else if equal name (codes "strike")
    then some strike
    else none

-- `none` is the `std::invalid_argument` that the default case throws
unfoldable pub emphasis_to_value : ℕ → Option ℕ
emphasis_to_value em =
    if em == 1
    then some 1
    else if em == 2
    then some 2
    else if em == 4
    then some 3
    else if em == 8
    then some 4
    else if em == 16
    then some 5
    else if em == 32
    then some 7
    else if em == 64
    then some 8
    else if em == 128
    then some 9
    else none

-- `std::views::iota(lo, lo + n)`
abbrev pub iota : ℕ → ℕ → List ℕ
iota lo zero = []
iota lo (suc n) = lo ∷ iota (suc lo) n

-- `(cat >> i) & 1`
abbrev pub test_bit : ℕ → ℕ → Bool
test_bit cat i = bit_and (cat / 2 ^ i) 1 == 1

abbrev pub filter : (ℕ → Bool) → List ℕ → List ℕ
filter p [] = []
filter p (x ∷ xs) = let rest = filter p xs in if p x then x ∷ rest else rest

-- `each_bit` at a type with the given `max_bit` and no `min_bit`
unfoldable pub each_bit : ℕ → ℕ → List ℕ
each_bit max_bit flags = map (λ i. 2 ^ i) (filter (test_bit flags) (iota 0 (suc max_bit)))

-- `bitops_enabled<detail::emphasis>::max_bit`
abbrev pub max_bit : ℕ
max_bit = 7

-- `operator|=` of bitops_operators
unfoldable pub add : ℕ → Emphasis → ℕ
add em e = bit_or em (value e)
