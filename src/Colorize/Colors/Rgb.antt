-- ===== src/Colorize/Colors/Rgb.antt =====
-- The three bytes of a colour.
use Prim.Native.Nat.{bit_or}
use yk_util.Base.{ℕ, ◌+◌, ◌*◌, ◌/◌, ◌<◌, ◌≡◌, ◌∙◌, ap, arith}
use yk_util.Base.Bits.{bit_or_8, bit_or_16, bit_and-byte}
use yk_util.Colorize.Colors.{make_rgb, get_rgb}

regroup : (r g : ℕ) → r * 65536 + g * 256 ≡ (r * 256 + g) * 256
regroup r g = omega arith

pub make_rgb_sum :
    (r g b : ℕ) → r < 256 → g < 256 → b < 256 → make_rgb r g b ≡ r * 65536 + g * 256 + b
unfolding make_rgb
make_rgb_sum r g b p q s =
    ap (λ n. bit_or n b) (bit_or_16 r (g * 256) (omega arith))
    ∙ ap (λ n. bit_or n b) (regroup r g)
    ∙ bit_or_8 (r * 256 + g) b s
    ∙ omega arith

bytes_eq : {a b c x y z : ℕ} → a ≡ x → b ≡ y → c ≡ z → ◌≡◌ {A = ℕ × ℕ × ℕ} (a, b, c) (x, y, z)
bytes_eq p q r = λ i. (p i, q i, r i)

-- get_rgb takes a colour that was put together from three numbers below 256 apart into the same
-- numbers.
pub get_rgb-make_rgb :
    (r g b : ℕ) → r < 256 → g < 256 → b < 256 → get_rgb (make_rgb r g b) ≡ (r, g, b)
unfolding get_rgb
get_rgb-make_rgb r g b p q s =
    bytes_eq (bit_and-byte (make_rgb r g b / 65536) ∙ omega (arith, make_rgb_sum r g b p q s))
      (bit_and-byte (make_rgb r g b / 256) ∙ omega (arith, make_rgb_sum r g b p q s))
      (bit_and-byte (make_rgb r g b) ∙ omega (arith, make_rgb_sum r g b p q s))
