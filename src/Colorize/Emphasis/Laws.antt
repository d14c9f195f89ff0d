-- ===== src/Colorize/Emphasis/Laws.antt =====
-- What `each_bit` yields, for the switch of `emphasis_to_value`.
use yk_util.Base.{
  subst, ℕ, zero, suc, ◌+◌, ◌^◌, ◌<◌, ◌≡◌, refl, Bool, true, false, List, [], ◌∷◌, some, map, arith,
  if◌then◌else◌,
}
use yk_util.Colorize.Emphasis.{emphasis_to_value, iota, test_bit, filter, each_bit, max_bit}

-- The list has only flags of the enumeration.
abbrev pub AllFlags : List ℕ → Type 0
AllFlags [] = Unit {0}
AllFlags (f ∷ fs) = ((v : ℕ) × (emphasis_to_value f ≡ some v)) × AllFlags fs

flag_value : (i : ℕ) → i < 8 → (v : ℕ) × (emphasis_to_value (2 ^ i) ≡ some v)
unfolding emphasis_to_value
flag_value zero h = (1, refl)
flag_value (suc zero) h = (2, refl)
flag_value (suc (suc zero)) h = (3, refl)
flag_value (suc (suc (suc zero))) h = (4, refl)
flag_value (suc (suc (suc (suc zero)))) h = (5, refl)
flag_value (suc (suc (suc (suc (suc zero))))) h = (7, refl)
flag_value (suc (suc (suc (suc (suc (suc zero)))))) h = (8, refl)
flag_value (suc (suc (suc (suc (suc (suc (suc zero))))))) h = (9, refl)
flag_value (suc (suc (suc (suc (suc (suc (suc (suc i)))))))) h = absurd (omega arith)

abbrev AllBelow : ℕ → List ℕ → Type 0
AllBelow n [] = Unit {0}
AllBelow n (i ∷ is) = (i < n) × AllBelow n is

filter-AllBelow : (p : ℕ → Bool) (n : ℕ) (is : List ℕ) → AllBelow n is → AllBelow n (filter p is)
filter-AllBelow p n [] a = tt
filter-AllBelow p n (i ∷ is) (h, a) =
    elim (p i) as (λ b. AllBelow n (let rest = filter p is in if b then i ∷ rest else rest)) [
      | true ↦ (h, filter-AllBelow p n is a)
      | false ↦ filter-AllBelow p n is a
    ]

map-AllFlags : (is : List ℕ) → AllBelow 8 is → AllFlags (map (λ i. 2 ^ i) is)
map-AllFlags [] a = tt
map-AllFlags (i ∷ is) (h, a) = (flag_value i h, map-AllFlags is a)

iota-AllBelow : (lo n : ℕ) → AllBelow (lo + n) (iota lo n)
iota-AllBelow lo zero = tt
iota-AllBelow lo (suc n) = (
  omega arith,
  subst (λ m. AllBelow m (iota (suc lo) n)) (omega arith) (iota-AllBelow (suc lo) n),
)

pub each_bit-AllFlags : (em : ℕ) → AllFlags (each_bit max_bit em)
unfolding each_bit
each_bit-AllFlags em =
    map-AllFlags (filter (test_bit em) (iota 0 8))
      (filter-AllBelow (test_bit em) 8 (iota 0 8) (iota-AllBelow 0 8))
