-- ===== src/Colorize/Numbers/Laws.antt =====
-- Reading behind printing.
use yk_util.Base.{ℕ, ◌<◌, ◌≡◌, refl, false, [], ◌∷◌, ◌++◌, some, arith}
use yk_util.Colorize.Bytes.{Bytes}
use yk_util.Colorize.Numbers.{is_digit, to_chars, scan_digits, from_chars}

-- No digit in front.
abbrev pub Stops : Bytes → Type 0
Stops [] = Unit {0}
Stops (c ∷ cs) = is_digit c ≡ false

scan_digits-Stops : (acc : ℕ) (rest : Bytes) → Stops rest → scan_digits acc rest ≡ (acc, rest)
unfolding scan_digits
scan_digits-Stops acc [] h = refl
scan_digits-Stops acc (c ∷ cs) h = ground arith

pub from_chars-to_chars :
    (n : ℕ) (rest : Bytes) → n < 256 → Stops rest → from_chars (to_chars n ++ rest) ≡ some (n, rest)
unfolding from_chars to_chars scan_digits
from_chars-to_chars n rest h s = ground (arith, scan_digits-Stops n rest s)
