-- ===== src/Colorize/Numbers.antt =====
-- `std::to_chars` and `std::from_chars` at `std::uint8_t`, in decimal.
pub mod Laws
use yk_util.Base.{
  ℕ, ◌+◌, ◌-◌, ◌*◌, ◌/◌, ◌%◌, Bool, ◌&&◌, [], ◌∷◌, Option, none, some, ltb, leb, if◌then◌else◌,
}
use yk_util.Colorize.Bytes.{Bytes}

abbrev pub is_digit : ℕ → Bool
is_digit c = leb b'0' c && leb c b'9'

abbrev pub digit : ℕ → ℕ
digit n = b'0' + n % 10

unfoldable pub to_chars : ℕ → Bytes
to_chars n =
    if ltb n 10
    then digit n ∷ []
    else if ltb n 100
    then digit (n / 10) ∷ digit n ∷ []
    else digit (n / 100) ∷ digit (n / 10) ∷ digit n ∷ []

-- The value of the digits in front, behind those that made `acc`, and what follows them.
unfoldable pub scan_digits : ℕ → Bytes → ℕ × Bytes
scan_digits acc [] = (acc, [])
scan_digits acc (c ∷ cs) =
    let rest = scan_digits (acc * 10 + (c - b'0')) cs in if is_digit c then rest else (acc, c ∷ cs)

-- `none` is `ec != std::errc{}`: no digit, or a value that does not fit eight bits.
unfoldable pub from_chars : Bytes → Option (ℕ × Bytes)
unfolding scan_digits
from_chars [] = none
from_chars (c ∷ cs) =
    if is_digit c
    then (let r = scan_digits 0 (c ∷ cs) in if ltb r.0 256 then some r else none)
    else none
