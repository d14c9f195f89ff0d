-- ===== src/Colorize/Colors.antt =====
-- `rgb_color`, `get_rgb`, `color_lookup_table` and `name_to_color` of include/yk/colorize.hpp.
-- `detail::color` is `Option ℕ`; the library's sort and lower bound are modelled by an insertion sort
-- and by their documented result on a sorted range.
mod Table
pub mod Lookup
pub mod Rgb
pub use Table.*
use Prim.Native.Nat.{bit_and, bit_or}
use yk_util.Base.{ℕ, ◌*◌, ◌/◌, ◌^◌, not, List, [], ◌∷◌, Option, none, some, map, if◌then◌else◌}
use yk_util.Colorize.Bytes.{Bytes, codes, equal, less}

-- `x << k` and `x >> k`
abbrev shl : ℕ → ℕ → ℕ
shl x k = x * 2 ^ k

abbrev shr : ℕ → ℕ → ℕ
shr x k = x / 2 ^ k

-- `rgb_color{std::uint32_t(r) << 16 | std::uint32_t(g) << 8 | std::uint32_t(b)}`
unfoldable pub make_rgb : ℕ → ℕ → ℕ → ℕ
make_rgb r g b = bit_or (bit_or (shl r 16) (shl g 8)) b

unfoldable pub get_rgb : ℕ → ℕ × ℕ × ℕ
get_rgb val = (bit_and (shr val 16) 0xff, bit_and (shr val 8) 0xff, bit_and val 0xff)

abbrev pub ColorPair : Type 0
ColorPair = Bytes × ℕ

-- the table as it is written, before it is sorted
abbrev pub color_pairs : List ColorPair
color_pairs = map (λ e. (codes e.0, e.1)) enumerators

pub insert : ColorPair → List ColorPair → List ColorPair
insert p [] = p ∷ []
insert p (q ∷ qs) = if less q.0 p.0 then q ∷ insert p qs else p ∷ q ∷ qs

pub sort : List ColorPair → List ColorPair
unfolding insert
sort [] = []
sort (p ∷ ps) = insert p (sort ps)

-- The first pair whose name is not less than `name`, and those behind it.
pub lower_bound : List ColorPair → Bytes → List ColorPair
lower_bound [] name = []
lower_bound (p ∷ ps) name = if less p.0 name then lower_bound ps name else p ∷ ps

pub color_lookup_table : List ColorPair
unfolding sort
color_lookup_table = sort color_pairs

-- the tests on `it` in `name_to_color`
abbrev value_at : List ColorPair → Bytes → Option ℕ
value_at [] name = none
value_at (p ∷ ps) name = if not (equal p.0 name) then none else some p.1

unfoldable pub name_to_color : Bytes → Option ℕ
unfolding color_lookup_table lower_bound
name_to_color name = value_at (lower_bound color_lookup_table name) name
