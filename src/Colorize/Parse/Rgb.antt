-- ===== src/Colorize/Parse/Rgb.antt =====
-- The colours written as `rgb(r,g,b)`.
use yk_util.Base.{
  true, false, ==_refl, if◌then◌else◌, ◌==◌, ℕ, ◌+◌, ◌*◌, ◌<◌, ◌≡◌, refl, sym, ap, ◌∙◌, ◌∷◌, ◌++◌,
  Option, none, some,
}
use yk_util.Colorize.Bytes.{Bytes, codes, after_prefix}
use yk_util.Colorize.Colors.{make_rgb, get_rgb}
use yk_util.Colorize.Colors.Rgb.{make_rgb_sum, get_rgb-make_rgb}
use yk_util.Colorize.Numbers.{is_digit, to_chars}
use yk_util.Colorize.Numbers.Laws.{Stops, from_chars-to_chars}
use yk_util.Colorize.Parse.{number, expect, channel, parse_channels, parse_rgb}
use yk_util.Colorize.Result.{ColorizeError, Result, ok, error, ◌>>=◌}

-- `rgb(r,g,b)` and what follows it
abbrev pub rgb_text : ℕ → ℕ → ℕ → Bytes → Bytes
rgb_text r g b rest =
    codes "rgb(" ++ (to_chars r ++ (b',' ∷ (to_chars g ++ (b',' ∷ (to_chars b ++ (b')' ∷ rest))))))

number-to_chars :
    (n : ℕ) (rest : Bytes) → n < 256 → Stops rest → number (to_chars n ++ rest) ≡ ok (n, rest)
number-to_chars n rest h s =
    ap
      (λ o. elim o as (λ o. Result (ℕ × Bytes)) [
        | none ↦ error ColorizeError.invalid_number
        | some r ↦ ok r
      ])
      (from_chars-to_chars n rest h s)

expect-here :
    (beyond : Option ℕ) (e : ColorizeError) (c : ℕ) (s : Bytes)
    → (c == c) ≡ true
    → expect beyond e c (c ∷ s) ≡ ok s
expect-here beyond e c s h = ap (λ b. if b then ok s else error e) h

channel-to_chars :
    (beyond : Option ℕ) (e : ColorizeError) (c n : ℕ) (rest : Bytes)
    → n < 256
    → is_digit c ≡ false
    → channel beyond e c (to_chars n ++ (c ∷ rest)) ≡ ok (n, rest)
unfolding channel
channel-to_chars beyond e c n rest h d =
    ap (λ r. r >>= λ n. expect beyond e c n.1 >>= λ s'. ok (n.0, s'))
      (number-to_chars n (c ∷ rest) h d)
    ∙ ap (λ r. r >>= λ s'. ok (n, s')) (expect-here beyond e c rest (==_refl c))

parse_channels-rgb :
    (beyond : Option ℕ) (r g b : ℕ) (rest : Bytes)
    → r < 256
    → g < 256
    → b < 256
    → parse_channels beyond
        (to_chars r ++ (b',' ∷ (to_chars g ++ (b',' ∷ (to_chars b ++ (b')' ∷ rest))))))
      ≡ ok (make_rgb r g b)
unfolding parse_channels
parse_channels-rgb beyond r g b rest p q s = rw (
  channel-to_chars beyond ColorizeError.invalid_delimiter b',' r
      (to_chars g ++ (b',' ∷ (to_chars b ++ (b')' ∷ rest)))) p refl,
  channel-to_chars beyond ColorizeError.invalid_delimiter b',' g (to_chars b ++ (b')' ∷ rest)) q
      refl,
  channel-to_chars beyond ColorizeError.unmatched_parenthesis b')' b rest s refl,
)

-- parse_rgb reads rgb(r,g,b), printed with three numbers below 256, as the colour with the value
-- 65536 r + 256 g + b, whatever stands behind the closing parenthesis, and get_rgb takes that
-- value apart into r, g and b.
pub parse_rgb-rgb_text :
    (beyond : Option ℕ) (r g b : ℕ) (rest : Bytes)
    → r < 256
    → g < 256
    → b < 256
    → (parse_rgb beyond (rgb_text r g b rest) ≡ ok (some (r * 65536 + g * 256 + b)))
      × (get_rgb (r * 65536 + g * 256 + b) ≡ (r, g, b))
unfolding parse_rgb after_prefix
parse_rgb-rgb_text beyond r g b rest p q s =
    let sum = make_rgb_sum r g b p q s in
    (
      ap (λ c. c >>= λ c. ok (some c)) (parse_channels-rgb beyond r g b rest p q s)
          ∙ ap (λ c. ok (some c)) sum,
      ap get_rgb (sym sum) ∙ get_rgb-make_rgb r g b p q s,
    )
