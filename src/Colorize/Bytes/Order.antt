-- ===== src/Colorize/Bytes/Order.antt =====
-- The lexicographic order on byte strings is a strict total order that `equal` agrees with.
use yk_util.Base.{◌≡◌, refl, true, false, [], ◌∷◌, arith}
use yk_util.Colorize.Bytes.{Bytes, equal, less}

pub equal_refl : (s : Bytes) → equal s s ≡ true
unfolding equal
equal_refl [] = refl
equal_refl (x ∷ s) = ground (arith, equal_refl s)

pub less_irrefl : (s : Bytes) → less s s ≡ false
unfolding less
less_irrefl [] = refl
less_irrefl (x ∷ s) = ground (arith, less_irrefl s)

-- Names between which neither stands first are one name.
pub less_none : (s t : Bytes) → less s t ≡ false → less t s ≡ false → equal s t ≡ true
unfolding equal less
less_none [] [] h k = refl
less_none [] (y ∷ t) h k = absurd (ground arith)
less_none (x ∷ s) [] h k = absurd (ground arith)
less_none (x ∷ s) (y ∷ t) h k = ground (arith, less_none s t)

pub less-equal : (s t : Bytes) → less s t ≡ true → equal s t ≡ false
unfolding equal less
less-equal [] [] h = absurd (ground arith)
less-equal [] (y ∷ t) h = refl
less-equal (x ∷ s) [] h = absurd (ground arith)
less-equal (x ∷ s) (y ∷ t) h = ground (arith, less-equal s t)

pub less_asym : (s t : Bytes) → less s t ≡ true → less t s ≡ false
unfolding less
less_asym [] [] h = absurd (ground arith)
less_asym [] (y ∷ t) h = refl
less_asym (x ∷ s) [] h = absurd (ground arith)
less_asym (x ∷ s) (y ∷ t) h = ground (arith, less_asym s t)

-- If `s` is not below `t`, and `t` not below `u`, then `s` is not below `u`.
pub less_trans : (s t u : Bytes) → less s t ≡ false → less t u ≡ false → less s u ≡ false
unfolding less
less_trans s t [] h k = refl
less_trans [] [] (z ∷ u) h k = absurd (ground arith)
less_trans [] (y ∷ t) (z ∷ u) h k = absurd (ground arith)
less_trans (x ∷ s) [] (z ∷ u) h k = absurd (ground arith)
less_trans (x ∷ s) (y ∷ t) (z ∷ u) h k = ground (arith, less_trans s t u)

pub equal→path : (s t : Bytes) → equal s t ≡ true → s ≡ t
unfolding equal
equal→path [] [] h = refl
equal→path [] (y ∷ t) h = absurd (ground arith)
equal→path (x ∷ s) [] h = absurd (ground arith)
equal→path (x ∷ s) (y ∷ t) h = ground (arith, equal→path s t)
