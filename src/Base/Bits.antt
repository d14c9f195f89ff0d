-- ===== src/Base/Bits.antt =====
-- The words of the machine as sums of their bits: `|` of words whose bits stand apart, and `& 0xFF`.
use Prim.Native.Nat.{
  ℕ, zero, suc, ◌+◌, ◌*◌, ◌/◌, ◌%◌, ◌≤◌, ◌<◌, min, max, bit_and, bit_or, digits, bit_and-bitwise,
  bit_or-bitwise, bit_xor, bit_xor-bitwise, differ,
}
use mathlib.Core.Path.{◌≡◌, refl, sym, ap, ◌∙◌, subst}
use mathlib.Core.Logic.{◌⊎◌, inl, inr}
use native.Mathlib.Omega.{arith}

reached : (a n : ℕ) → a ≤ suc n → (a ≡ suc n) ⊎ (a ≤ n)
reached a n h = ground arith

-- An operation digit by digit, where `z` is its value beside 0.
module _ (z : ℕ → ℕ) (op : ℕ → ℕ → ℕ) where
  more_fuel : (n a b : ℕ) → a ≤ n → digits z op (suc n) a b ≡ digits z op n a b
  more_fuel zero zero b h = refl
  more_fuel (suc n) zero b h = refl
  more_fuel zero (suc a) b h = absurd (omega (arith, h))
  more_fuel (suc n) (suc a) b h =
      ap (λ d. d * 2 + op (suc a % 2) (b % 2)) (more_fuel n (suc a / 2) (b / 2) (omega (arith, h)))

  own_fuel : (n a b : ℕ) → a ≤ n → digits z op n a b ≡ digits z op a a b
  own_fuel zero zero b h = refl
  own_fuel zero (suc a) b h = absurd (omega (arith, h))
  own_fuel (suc n) a b h = elim (reached a n h) [
    | inl e ↦ subst (λ m. digits z op m a b ≡ digits z op a a b) e refl
    | inr l ↦ more_fuel n a b l ∙ own_fuel n a b l
  ]

  lowest_digit :
      (a b : ℕ)
      → digits z op (suc a) (suc a) b
        ≡ digits z op (suc a / 2) (suc a / 2) (b / 2) * 2 + op (suc a % 2) (b % 2)
  lowest_digit a b =
      ap (λ d. d * 2 + op (suc a % 2) (b % 2)) (own_fuel a (suc a / 2) (b / 2) (omega arith))

or_zero : (n a : ℕ) → a ≤ n → digits (λ b. b) max n a 0 ≡ a
or_zero zero zero h = refl
or_zero (suc n) zero h = refl
or_zero zero (suc a) h = absurd (omega (arith, h))
or_zero (suc n) (suc a) h = omega (arith, or_zero n (suc a / 2) (omega (arith, h)))

and_zero : (n a : ℕ) → digits (λ b. zero) min n a 0 ≡ 0
and_zero zero a = refl
and_zero (suc n) zero = refl
and_zero (suc n) (suc a) = omega (arith, and_zero n (suc a / 2))

or_none : (b : ℕ) → bit_or 0 b ≡ b
or_none = bit_or-bitwise 0

or_right : (a : ℕ) → bit_or a 0 ≡ a
or_right a = bit_or-bitwise a 0 ∙ or_zero a a (omega arith)

pub or_lowest : (a b : ℕ) → bit_or a b ≡ bit_or (a / 2) (b / 2) * 2 + max (a % 2) (b % 2)
or_lowest zero b = omega (arith, or_none b, or_none (b / 2))
or_lowest (suc a) b =
    bit_or-bitwise (suc a) b
    ∙ lowest_digit (λ b. b) max a b
    ∙ ap (λ d. d * 2 + max (suc a % 2) (b % 2)) (sym (bit_or-bitwise (suc a / 2) (b / 2)))

xor_none : (b : ℕ) → bit_xor 0 b ≡ b
xor_none = bit_xor-bitwise 0

pub xor_lowest : (a b : ℕ) → bit_xor a b ≡ bit_xor (a / 2) (b / 2) * 2 + differ (a % 2) (b % 2)
xor_lowest zero b = omega (arith, xor_none b, xor_none (b / 2))
xor_lowest (suc a) b =
    bit_xor-bitwise (suc a) b
    ∙ lowest_digit (λ b. b) differ a b
    ∙ ap (λ d. d * 2 + differ (suc a % 2) (b % 2)) (sym (bit_xor-bitwise (suc a / 2) (b / 2)))

and_none : (b : ℕ) → bit_and 0 b ≡ 0
and_none = bit_and-bitwise 0

and_right : (a : ℕ) → bit_and a 0 ≡ 0
and_right a = bit_and-bitwise a 0 ∙ and_zero a a

pub and_lowest : (a b : ℕ) → bit_and a b ≡ bit_and (a / 2) (b / 2) * 2 + min (a % 2) (b % 2)
and_lowest zero b = omega (arith, and_none b, and_none (b / 2))
and_lowest (suc a) b =
    bit_and-bitwise (suc a) b
    ∙ lowest_digit (λ b. zero) min a b
    ∙ ap (λ d. d * 2 + min (suc a % 2) (b % 2)) (sym (bit_and-bitwise (suc a / 2) (b / 2)))

-- `x` with `k` zero bits behind it.
abbrev shifted : ℕ → ℕ → ℕ
shifted zero x = x
shifted (suc k) x = 2 * shifted k x

halve : (n : ℕ) → 2 * n / 2 ≡ n
halve n = omega arith

or_double :
    (m w y : ℕ)
    → y < 2 * w
    → (y / 2 < w → bit_or m (y / 2) ≡ m + y / 2)
    → bit_or (2 * m) y ≡ 2 * m + y
or_double m w y h apart =
    omega
      (arith, or_lowest (2 * m) y, ap (λ n. bit_or n (y / 2)) (halve m), apart (omega (arith, h)))

-- Bits that stand apart add up.
or_shifted : (k x y : ℕ) → y < shifted k 1 → bit_or (shifted k x) y ≡ shifted k x + y
or_shifted zero x zero h = or_right x ∙ omega arith
or_shifted zero x (suc y) h = absurd (omega (arith, h))
or_shifted (suc k) x y h = or_double (shifted k x) (shifted k 1) y h (or_shifted k x (y / 2))

times_256 : (x : ℕ) → 2 * (2 * (2 * (2 * (2 * (2 * (2 * (2 * x))))))) ≡ x * 256
times_256 x = omega arith

shifted_8 : (x : ℕ) → shifted 8 x ≡ x * 256
shifted_8 = times_256

shifted_16 : (x : ℕ) → shifted 16 x ≡ x * 65536
shifted_16 x = omega (arith, times_256 (shifted 8 x), shifted_8 x)

below : (k n y : ℕ) → shifted k 1 ≡ n → y < n → y < shifted k 1
below k n y p h = omega (arith, p)

pub bit_or_8 : (x y : ℕ) → y < 256 → bit_or (x * 256) y ≡ x * 256 + y
bit_or_8 x y h =
    subst (λ n. bit_or n y ≡ n + y) (shifted_8 x) (or_shifted 8 x y (below 8 256 y (shifted_8 1) h))

pub bit_or_16 : (x y : ℕ) → y < 65536 → bit_or (x * 65536) y ≡ x * 65536 + y
bit_or_16 x y h =
    subst (λ n. bit_or n y ≡ n + y) (shifted_16 x)
      (or_shifted 16 x y (below 16 65536 y (shifted_16 1) h))

-- A mask of ones, from its lowest bit on.
masked : (a m : ℕ) → bit_and a (2 * m + 1) ≡ 2 * bit_and (a / 2) m + a % 2
masked a m = omega (arith, and_lowest a (2 * m + 1), ap (bit_and (a / 2)) (half_odd m))
  where
    half_odd : (m : ℕ) → (2 * m + 1) / 2 ≡ m
    half_odd m = omega arith

low_nibble : (a : ℕ) → bit_and a 15 ≡ a % 16
low_nibble a = omega (
  arith,
  masked a 7,
  masked (a / 2) 3,
  masked (a / 2 / 2) 1,
  masked (a / 2 / 2 / 2) 0,
  and_right (a / 2 / 2 / 2 / 2),
)

pub bit_and-byte : (a : ℕ) → bit_and a 255 ≡ a % 256
bit_and-byte a = omega (
  arith,
  masked a 127,
  masked (a / 2) 63,
  masked (a / 2 / 2) 31,
  masked (a / 2 / 2 / 2) 15,
  low_nibble (a / 2 / 2 / 2 / 2),
)
