-- ===== src/Ranges/Concat/Positions.antt =====
-- The position of an iterator in the joined sequence, and what the steps of an iterator do to it.
use yk_util.Base.{
  ℕ, zero, suc, ◌+◌, ◌-◌, ◌≤◌, ◌<◌, ◌≡◌, refl, ap, List, [], ◌∷◌, ◌++◌, Option, none, some, length,
  ltb, leb, ◌==◌, arith, if-elim, leb→le, ltb→lt, subst,
}
use yk_util.Ranges.Concat.{
  Iterator, satisfy, behind, forth, back, increment, prev, advance_fwd, advance_bwd, view_size,
}

module _ {A : Type 0} where
  -- The views one behind another.
  abbrev pub flatten : List (List A) → List A
  flatten [] = []
  flatten (v ∷ vs) = v ++ flatten vs

  module _ (vs : List (List A)) where
    -- the number of elements of the first `n` views
    unfoldable pub before : ℕ → ℕ
    before zero = 0
    before (suc n) = before n + view_size vs n

    abbrev pub position : Iterator → ℕ
    position it = before it.index + it.iter

    -- An iterator stands at an element, or at the end of the last view.
    pub record IsValid (it : Iterator) : Type 0 where
      pub in_views : it.index < length vs
      pub in_view : it.iter ≤ view_size vs it.index
      pub settled : it.iter ≡ view_size vs it.index → it.index + 1 ≡ length vs

    -- A valid iterator at a position.
    pub record Stands (p : ℕ) (it : Iterator) : Type 0 where
      pub valid : IsValid it
      pub place : position it ≡ p

    -- The result is such an iterator.
    abbrev pub Reaches : ℕ → Option Iterator → Type 0
    Reaches p none = ⊥
    Reaches p (some it) = Stands p it

    pub satisfy-Stands :
        (left n i : ℕ)
        → n + left + 1 ≡ length vs
        → i ≤ view_size vs n
        → Stands (before n + i) (satisfy vs left n i)
    unfolding satisfy before
    satisfy-Stands zero n i e l = record {
      valid = record { in_views = omega arith; in_view = l; settled = λ h. omega arith };
      place = refl;
    }
    satisfy-Stands (suc left) n i e l =
        if-elim (Stands (before n + i)) (i == view_size vs n) _ _
          (λ h.
            let r = satisfy-Stands left (n + 1) 0 (omega arith) (omega arith) in
            record { valid = r.valid; place = ground (arith, r.place) })
          (λ h. record {
            valid = record { in_views = omega arith; in_view = l; settled = λ q. ground arith };
            place = refl;
          })

    pub forth-Reaches :
        (n i steps : ℕ)
        → n < length vs
        → i + steps ≤ view_size vs n
        → (i + steps ≡ view_size vs n → n + 1 ≡ length vs)
        → Reaches (before n + i + steps) (forth vs n i steps)
    unfolding forth
    forth-Reaches n i steps b l e =
        if-elim (Reaches (before n + i + steps)) (leb (i + steps) (view_size vs n)) _ _
          (λ h. record {
            valid = record { in_views = b; in_view = l; settled = e };
            place = omega arith;
          })
          (λ h. absurd (ground arith))

    pub increment-Reaches :
        (it : Iterator)
        → IsValid it
        → it.iter < view_size vs it.index
        → Reaches (position it + 1) (increment vs it)
    unfolding increment
    increment-Reaches it v l =
        if-elim (Reaches (position it + 1)) (ltb it.iter (view_size vs it.index)) _ _
          (λ h.
            let r =
              satisfy-Stands (behind vs it.index) it.index (it.iter + 1) (omega (arith, v.in_views))
                (omega arith) in
            record { valid = r.valid; place = omega (arith, r.place) })
          (λ h. absurd (ground arith))

    pub back-Reaches :
        (n i steps : ℕ)
        → n < length vs
        → i ≤ view_size vs n
        → steps ≤ i
        → 0 < steps
        → Reaches (before n + i - steps) (back vs n i steps)
    unfolding back
    back-Reaches n i steps e l b p =
        if-elim (Reaches (before n + i - steps)) (leb steps i) _ _
          (λ h. record {
            valid = record {
              in_views = e;
              in_view = omega arith;
              settled = λ q. absurd (omega arith);
            };
            place = omega arith;
          })
          (λ h. absurd (ground arith))

    pub prev-Reaches :
        (n i : ℕ)
        → n < length vs
        → i ≤ view_size vs n
        → 0 < before n + i
        → Reaches (before n + i - 1) (prev vs n i)
    unfolding prev before
    prev-Reaches zero i e l p = back-Reaches 0 i 1 e l (omega arith) (omega arith)
    prev-Reaches (suc n) i e l p =
        if-elim (Reaches (before n + view_size vs n + i - 1)) (i == 0) _ _
          (λ h.
            let z : i ≡ 0 = ground arith in
            subst (λ k. Reaches k (prev vs n (view_size vs n))) (omega arith)
              (prev-Reaches n (view_size vs n) (omega arith) (omega arith) (omega arith)))
          (λ h. let z : 1 ≤ i = ground arith in back-Reaches (suc n) i 1 e l z (omega arith))

    pub advance_fwd-Reaches :
        (left n offset steps : ℕ)
        → n + left + 1 ≡ length vs
        → offset ≤ view_size vs n
        → before n + offset + steps ≤ before (length vs)
        → Reaches (before n + offset + steps) (advance_fwd vs left n offset steps)
    unfolding advance_fwd before
    advance_fwd-Reaches zero n offset steps e l b =
        let last : length vs ≡ suc n = omega arith in
        let q : before (length vs) ≡ before n + view_size vs n = ap before last in
        forth-Reaches n offset steps (omega arith) (omega arith) (λ h. omega arith)
    advance_fwd-Reaches (suc left) n offset steps e l b =
        let succ : n + 1 ≡ suc n = omega arith in
        let q : before (n + 1) ≡ before n + view_size vs n = ap before succ in
        if-elim (Reaches (before n + offset + steps)) (ltb (offset + steps) (view_size vs n)) _ _
          (λ h.
            let z = ltb→lt (offset + steps) (view_size vs n) h in
            forth-Reaches n offset steps (omega arith) (omega arith) (λ t. absurd (omega arith)))
          (λ h.
            let z : view_size vs n ≤ offset + steps = ground arith in
            let rest = offset + steps - view_size vs n in
            subst (λ k. Reaches k (advance_fwd vs left (n + 1) 0 rest)) (omega arith)
              (advance_fwd-Reaches left (n + 1) 0 rest (omega arith) (omega arith) (omega arith)))

    pub advance_bwd-Reaches :
        (n offset steps : ℕ)
        → n < length vs
        → offset ≤ view_size vs n
        → 0 < steps
        → steps ≤ before n + offset
        → Reaches (before n + offset - steps) (advance_bwd vs n offset steps)
    unfolding advance_bwd before
    advance_bwd-Reaches zero offset steps e l p b = back-Reaches 0 offset steps e l (omega arith) p
    advance_bwd-Reaches (suc n) offset steps e l p b =
        if-elim (Reaches (before n + view_size vs n + offset - steps)) (leb steps offset) _ _
          (λ h. back-Reaches (suc n) offset steps e l (leb→le steps offset h) p)
          (λ h.
            let z : offset < steps = ground arith in
            subst (λ k. Reaches k (advance_bwd vs n (view_size vs n) (steps - offset)))
              (omega arith)
              (advance_bwd-Reaches n (view_size vs n) (steps - offset) (omega arith) (omega arith)
                (omega arith) (omega arith)))
