-- ===== src/Ranges/Concat/Refines.antt =====
-- The iterator of concat_view against positions in the joined sequence.
use yk_util.Base.{
  ℕ, zero, suc, ◌+◌, ◌-◌, ◌≤◌, ◌<◌, ◌≡◌, ◌↔◌, refl, ap, sym, ◌∙◌, true, false, List, [], ◌∷◌,
  Option, none, some, length, get_elem?, drop, arith, subst, Bool-cases, inl, inr,
}
use yk_util.Base.Int.{ℤ, pos, negsuc, sub_ℕ}
use yk_util.Ranges.Concat.{
  Iterator, view_size, behind, begin, end, increment, decrement, add, difference, from_end, is_end,
  deref, at, size, equal,
}
use yk_util.Ranges.Concat.Positions.{
  flatten, before, position, IsValid, Stands, Reaches, satisfy-Stands, increment-Reaches,
  prev-Reaches, advance_fwd-Reaches, advance_bwd-Reaches,
}
use yk_util.Ranges.Concat.Distances.{sum_sizes-before, position-le, equal_iff, difference-position}
use yk_util.Ranges.Concat.Joined.{deref-position, size-length, size-before, drop_step, drop-length}

module _ {A : Type 0} (vs : List (List A)) where
  -- An iterator below the end is inside its view.
  inside :
      (it : Iterator) → IsValid vs it → position vs it < size vs → it.iter < view_size vs it.index
  unfolding before
  inside it v l =
      let succ : it.index + 1 ≡ length vs
          → before vs (length vs) ≡ before vs it.index + view_size vs it.index =
        (λ e. let q : length vs ≡ suc it.index = omega arith in ap (before vs) q) in
      ground (arith, size-before vs, v.in_view, v.settled)

  pub increment-position :
      (it : Iterator)
      → IsValid vs it
      → position vs it < size vs
      → Reaches vs (position vs it + 1) (increment vs it)
  increment-position it v l = increment-Reaches vs it v (inside it v l)

  -- -- of a valid iterator that is not at position 0 is defined, and gives the valid iterator
  -- one position before, over empty views too.
  pub decrement-position :
      (it : Iterator)
      → IsValid vs it
      → 0 < position vs it
      → Reaches vs (position vs it - 1) (decrement vs it)
  unfolding decrement
  decrement-position it v l = prev-Reaches vs it.index it.iter v.in_views v.in_view l

  pub add-position :
      (it : Iterator) (n : ℤ) (p : ℕ)
      → IsValid vs it
      → p ≤ size vs
      → n ≡ sub_ℕ p (position vs it)
      → Reaches vs p (add vs it n)
  unfolding add
  add-position it (pos zero) p v l e = record { valid = v; place = ground (arith, e) }
  add-position it (pos (suc n)) p v l e =
      let q : position vs it + suc n ≡ p = ground (arith, e) in
      subst (λ k. Reaches vs k (add vs it (pos (suc n)))) q
        (advance_fwd-Reaches vs (behind vs it.index) it.index it.iter (suc n)
          (omega (arith, v.in_views)) v.in_view (omega (arith, size-before vs)))
  add-position it (negsuc n) p v l e =
      let q : position vs it ≡ p + suc n = ground (arith, e) in
      let r : position vs it - suc n ≡ p = omega arith in
      subst (λ k. Reaches vs k (add vs it (negsuc n))) r
        (advance_bwd-Reaches vs it.index it.iter (suc n) v.in_views v.in_view (omega arith)
          (omega arith))

  -- Valid iterators at one position are equal.
  same : (x y : Iterator) → IsValid vs x → IsValid vs y → position vs x ≡ position vs y → x ≡ y
  unfolding equal
  same x y v w e = ground (arith, (equal_iff vs x y v w).1 e)

  -- it[n] reads the element of the joined sequence that is n places from the position of a valid
  -- iterator, forwards or backwards over any number of views, and nothing when that is the end.
  pub at-position :
      (it : Iterator) (n : ℤ) (p : ℕ)
      → IsValid vs it
      → p ≤ size vs
      → n ≡ sub_ℕ p (position vs it)
      → at vs it n ≡ get_elem? (flatten vs) p
  unfolding at
  at-position it n p v l e = settle (add vs it n) (add-position it n p v l e)
    where
      settle :
          (o : Option Iterator)
          → Reaches vs p o
          → elim o as (λ o. Option A) [ none ↦ none | some j ↦ deref vs j ]
            ≡ get_elem? (flatten vs) p
      settle none r = absurd r
      settle (some j) r = deref-position vs j r.valid ∙ ap (get_elem? (flatten vs)) r.place

  -- Adding x - y to y gives x, for two valid iterators of any two views.
  pub add-difference :
      (x y : Iterator) → IsValid vs x → IsValid vs y → add vs y (difference vs x y) ≡ some x
  add-difference x y v w = settle (add vs y (difference vs x y)) (
      add-position y (difference vs x y) (position vs x) w
        (omega (arith, size-before vs, position-le vs x v)) (difference-position vs x y v w))
    where
      settle : (o : Option Iterator) → Reaches vs (position vs x) o → o ≡ some x
      settle none r = absurd r
      settle (some z) r = ap some (same z x r.valid v r.place)

  pub begin-Stands : 0 < length vs → Stands vs 0 (begin vs)
  unfolding begin before
  begin-Stands l = satisfy-Stands vs (behind vs 0) 0 0 (omega arith) (omega arith)

  pub end-Stands : 0 < length vs → Stands vs (size vs) (end vs)
  unfolding end before
  end-Stands l =
      let q : length vs ≡ suc (length vs - 1) = omega arith in
      let e : before vs (length vs) ≡ before vs (length vs - 1) + view_size vs (length vs - 1) =
        ap (before vs) q in
      record {
        valid = record {
          in_views = omega arith;
          in_view = omega arith;
          settled = λ h. omega arith;
        };
        place = omega (arith, size-before vs);
      }

  pub is_end_iff :
      (it : Iterator) → IsValid vs it → (is_end vs it ≡ true) ↔ (position vs it ≡ size vs)
  unfolding is_end equal end
  is_end_iff it v =
      let e = end-Stands (omega (arith, v.in_views)) in
      subst (λ p. (equal it (end vs) ≡ true) ↔ (position vs it ≡ p)) e.place
        (equal_iff vs it (end vs) v e.valid)

  pub from_end-position :
      (it : Iterator) → IsValid vs it → from_end vs it ≡ sub_ℕ (position vs it) (size vs)
  unfolding from_end before
  from_end-position it v =
      let succ : it.index + 1 ≡ suc it.index = omega arith in
      let q : before vs (it.index + 1) ≡ before vs it.index + view_size vs it.index =
        ap (before vs) succ in
      let e : it.index + 1 + (length vs - (it.index + 1)) ≡ length vs = omega (arith, v.in_views) in
      ground (
        arith,
        size-before vs,
        v.in_view,
        q,
        ap (before vs) e,
        sum_sizes-before vs (it.index + 1) (length vs - (it.index + 1)),
      )

  -- What a loop from an iterator to the sentinel reads, within a number of rounds.
  unfoldable pub walk : ℕ → Iterator → Option (List A)
  walk zero it = none
  walk (suc fuel) it = elim (is_end vs it) [
    | true ↦ some []
    | false ↦ elim (deref vs it) [
      | none ↦ none
      | some x ↦ elim (increment vs it) [
        | none ↦ none
        | some next ↦ elim (walk fuel next) [ none ↦ none | some xs ↦ some (x ∷ xs) ]
      ]
    ]
  ]

  reached :
      (p : ℕ) (o : Option Iterator)
      → Reaches vs p o
      → (it : Iterator) × (o ≡ some it) × Stands vs p it
  reached p none r = absurd r
  reached p (some it) r = (it, refl, r)

  -- What one round below the end finds.
  one_round :
      (p : ℕ) (it : Iterator)
      → Stands vs p it
      → p < size vs
      → (x : A) × (next : Iterator) × (is_end vs it ≡ false)
        × (deref vs it ≡ some x)
        × (increment vs it ≡ some next)
        × Stands vs (p + 1) next
        × (drop p (flatten vs) ≡ x ∷ drop (p + 1) (flatten vs))
  one_round p it s l =
      let (x, g, d) = drop_step (flatten vs) p (omega (arith, size-length vs)) in
      let (next, i, n) =
        reached (position vs it + 1) (increment vs it)
          (increment-position it s.valid (omega (arith, s.place))) in
      let s' : Stands vs (p + 1) next = record {
        valid = n.valid;
        place = omega (arith, n.place, s.place);
      } in
      (
        x,
        next,
        ground (arith, is_end_iff it s.valid, s.place),
        deref-position vs it s.valid ∙ ap (get_elem? (flatten vs)) s.place ∙ g,
        i,
        s',
        d,
      )

  walk_from :
      (fuel p : ℕ) (it : Iterator)
      → Stands vs p it
      → size vs < p + fuel
      → p ≤ size vs
      → walk fuel it ≡ some (drop p (flatten vs))
  unfolding walk
  walk_from zero p it s f l = absurd (omega arith)
  walk_from (suc fuel) p it s f l = elim (Bool-cases (is_end vs it)) [
    | inl e ↦
        let q : p ≡ length (flatten vs) =
          sym s.place ∙ (is_end_iff it s.valid).0 e ∙ size-length vs in
        rw (walk, e, drop-length (flatten vs) p q) refl
    | inr e ↦
        let below : p < size vs = ground (arith, is_end_iff it s.valid, s.place) in
        let (x, next, e', h, i, s', d) = one_round p it s below in
        let r = walk_from fuel (p + 1) next s' (omega arith) (omega arith) in
        rw (walk, e, h, i, r, d) refl
  ]

  walk-short :
      (fuel p : ℕ) (it : Iterator) → Stands vs p it → p + fuel ≤ size vs → walk fuel it ≡ none
  unfolding walk
  walk-short zero p it s f = refl
  walk-short (suc fuel) p it s f =
      let (x, next, e, h, i, s', d) = one_round p it s (omega arith) in
      let r = walk-short fuel (p + 1) next s' (omega arith) in rw (walk, e, h, i, r) refl

  -- A loop over a concatenation of at least one view, from begin() by ++ to the sentinel, never
  -- leaves a view, and reads the elements of the views one behind another, whichever views are
  -- empty; size() is the number of these elements, and the test for the sentinel succeeds after
  -- size() rounds and not before.
  pub walk-flatten :
      0 < length vs
      → (walk (suc (size vs)) (begin vs) ≡ some (flatten vs))
        × (walk (size vs) (begin vs) ≡ none)
        × (length (flatten vs) ≡ size vs)
  walk-flatten l = (
    walk_from (suc (size vs)) 0 (begin vs) (begin-Stands l) (omega arith) (omega arith),
    walk-short (size vs) 0 (begin vs) (begin-Stands l) (omega arith),
    sym (size-length vs),
  )
