-- ===== src/EnumBitops/Flags.antt =====
-- What the operators do with each flag.
use Prim.Native.Nat.{bit_and, bit_or, bit_xor, differ}
use yk_util.Base.{
  ℕ, zero, suc, ◌+◌, ◌-◌, ◌*◌, ◌/◌, ◌%◌, ◌^◌, ◌≤◌, ◌<◌, ◌≡◌, ap, ◌∙◌, ◌↔◌, true, min, max, arith,
  ==_iff,
}
use yk_util.Base.Bits.{or_lowest, and_lowest, xor_lowest}
use yk_util.EnumBitops.{complement, union, intersection, difference, contains}

-- The flag at a position, 0 or 1.
abbrev pub flag : ℕ → ℕ → ℕ
flag a zero = a % 2
flag a (suc i) = flag (a / 2) i

pub flag-union : (a b i : ℕ) → flag (union a b) i ≡ max (flag a i) (flag b i)
unfolding union
flag-union a b zero = omega (arith, or_lowest a b)
flag-union a b (suc i) =
    let half : bit_or a b / 2 ≡ bit_or (a / 2) (b / 2) = omega (arith, or_lowest a b) in
    ap (λ n. flag n i) half ∙ flag-union (a / 2) (b / 2) i

flag-intersection : (a b i : ℕ) → flag (intersection a b) i ≡ min (flag a i) (flag b i)
unfolding intersection
flag-intersection a b zero = omega (arith, and_lowest a b)
flag-intersection a b (suc i) =
    let half : bit_and a b / 2 ≡ bit_and (a / 2) (b / 2) = omega (arith, and_lowest a b) in
    ap (λ n. flag n i) half ∙ flag-intersection (a / 2) (b / 2) i

differ_digits : (x y : ℕ) → x < 2 → y < 2 → differ x y ≡ (x + y) % 2
differ_digits zero y h k = omega (arith, k)
differ_digits (suc zero) zero h k = omega arith
differ_digits (suc zero) (suc zero) h k = omega arith
differ_digits (suc zero) (suc (suc y)) h k = absurd (omega (arith, k))
differ_digits (suc (suc x)) y h k = absurd (omega (arith, h))

flag-difference : (a b i : ℕ) → flag (difference a b) i ≡ (flag a i + flag b i) % 2
unfolding difference
flag-difference a b zero =
    omega (arith, xor_lowest a b, differ_digits (a % 2) (b % 2) (omega arith) (omega arith))
flag-difference a b (suc i) =
    let half : bit_xor a b / 2 ≡ bit_xor (a / 2) (b / 2) =
      omega (arith, xor_lowest a b, differ_digits (a % 2) (b % 2) (omega arith) (omega arith)) in
    ap (λ n. flag n i) half ∙ flag-difference (a / 2) (b / 2) i

two_times : (w : ℕ) → 2 ^ suc w ≡ 2 * 2 ^ w
two_times w = omega arith

lowest_of_complement : (q a : ℕ) → a < 2 * q → (2 * q - 1 - a) % 2 ≡ 1 - a % 2
lowest_of_complement q a h = omega (arith, h)

half_of_complement : (q a : ℕ) → a < 2 * q → (2 * q - 1 - a) / 2 ≡ q - 1 - a / 2
half_of_complement q a h = omega (arith, h)

-- Below its width, the complement has the flags that are not set.
flag-complement : (w a i : ℕ) → a < 2 ^ w → i < w → flag (complement w a) i ≡ 1 - flag a i
unfolding complement
flag-complement (suc w) a zero h k =
    omega (
      arith,
      h,
      two_times w,
      lowest_of_complement (2 ^ w) a,
      ap (λ n. (n - 1 - a) % 2) (two_times w),
    )
flag-complement (suc w) a (suc i) h k =
    let below : a < 2 * 2 ^ w = omega (arith, h, two_times w) in
    ap (λ n. flag n i)
      (ap (λ n. (n - 1 - a) / 2) (two_times w) ∙ half_of_complement (2 ^ w) a below)
    ∙ flag-complement w (a / 2) i (omega (arith, below)) (omega (arith, k))
flag-complement zero a i h k = absurd (omega (arith, k))

flags_differ : (n a b : ℕ) → a ≤ n → b ≤ n → ((i : ℕ) → flag a i ≡ flag b i) → a ≡ b
flags_differ zero a b h k e = omega (arith, h, k)
flags_differ (suc n) a b h k e = omega (
  arith,
  e 0,
  flags_differ n (a / 2) (b / 2) (omega (arith, h)) (omega (arith, k)) (λ i. e (suc i)),
)

contains_iff : (a b : ℕ) → (contains a b ≡ true) ↔ ((i : ℕ) → flag b i ≤ flag a i)
unfolding contains intersection
contains_iff a b = (
  λ h i.
      let same : intersection a b ≡ b = (==_iff (intersection a b) b).0 h in
      omega (arith, flag-intersection a b i, ap (λ n. flag n i) same),
  λ h. (==_iff (intersection a b) b).1 (
      flags_differ (intersection a b + b) (intersection a b) b (omega arith) (omega arith)
        (λ i. omega (arith, flag-intersection a b i, h i))),
)

-- At each position below the width of a type, the operators of two sets of flags give the flags
-- that are in one of them, in both, in exactly one, and not in the first; contains holds exactly
-- if every flag of the second is one of the first.
pub operators_by_flag :
    (w a b i : ℕ)
    → a < 2 ^ w
    → i < w
    → (flag (union a b) i ≡ max (flag a i) (flag b i))
      × (flag (intersection a b) i ≡ min (flag a i) (flag b i))
      × (flag (difference a b) i ≡ (flag a i + flag b i) % 2)
      × (flag (complement w a) i ≡ 1 - flag a i)
      × ((contains a b ≡ true) ↔ ((j : ℕ) → flag b j ≤ flag a j))
operators_by_flag w a b i h k = (
  flag-union a b i,
  flag-intersection a b i,
  flag-difference a b i,
  flag-complement w a i h k,
  contains_iff a b,
)
