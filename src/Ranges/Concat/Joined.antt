-- ===== src/Ranges/Concat/Joined.antt =====
-- The elements of the joined sequence.
use yk_util.Base.{
  ℕ, zero, suc, ◌+◌, ◌-◌, ◌≤◌, ◌<◌, ◌≡◌, ◌⊎◌, refl, ap, sym, ◌∙◌, List, [], ◌∷◌, ◌++◌, none, some,
  length, get_elem?, drop, ltb, if◌then◌else◌, arith, length-append,
}
use yk_util.Ranges.Concat.{Iterator, view, view_size, deref, size}
use yk_util.Ranges.Concat.Positions.{flatten, before, position, IsValid}
use yk_util.Ranges.Concat.Distances.{sum_sizes-before}

module _ {A : Type 0} where
  get_elem?-append :
      (v w : List A) (i : ℕ)
      → get_elem? (v ++ w) i
        ≡ (if ltb i (length v) then get_elem? v i else get_elem? w (i - length v))
  get_elem?-append [] w i = ground arith
  get_elem?-append (x ∷ v) w zero = ground arith
  get_elem?-append (x ∷ v) w (suc i) = ground (arith, get_elem?-append v w i)

  get_elem?-none : (v : List A) (i : ℕ) → length v ≤ i → get_elem? v i ≡ none
  get_elem?-none [] i l = refl
  get_elem?-none (x ∷ v) zero l = absurd (omega arith)
  get_elem?-none (x ∷ v) (suc i) l = get_elem?-none v i (omega arith)

  before-cons :
      (v : List A) (vs : List (List A)) (n : ℕ) → before (v ∷ vs) (suc n) ≡ length v + before vs n
  unfolding before view
  before-cons v vs zero = omega arith
  before-cons v vs (suc n) = omega (arith, before-cons v vs n)

  -- An element of a view, in the joined sequence.
  get_elem?-flatten :
      (vs : List (List A)) (n i : ℕ)
      → n < length vs
      → (i < view_size vs n) ⊎ (n + 1 ≡ length vs)
      → get_elem? (flatten vs) (before vs n + i) ≡ get_elem? (view vs n) i
  unfolding before view
  get_elem?-flatten [] n i l c = absurd (omega arith)
  get_elem?-flatten (v ∷ []) zero i l c =
      ground (arith, get_elem?-append v [] i, get_elem?-none v i)
  get_elem?-flatten (v ∷ w ∷ vs) zero i l c =
      ground (arith, get_elem?-append v (flatten (w ∷ vs)) i)
  get_elem?-flatten (v ∷ vs) (suc n) i l c =
      let e : before (v ∷ vs) (suc n) + i - length v ≡ before vs n + i =
        omega (arith, before-cons v vs n) in
      let q = get_elem?-append v (flatten vs) (before (v ∷ vs) (suc n) + i) in
      let rest = get_elem?-flatten vs n i (omega arith) (ground arith) in
      ground (arith, before-cons v vs n)

  pub size-before : (vs : List (List A)) → size vs ≡ before vs (length vs)
  unfolding size before
  size-before vs =
      let z : 0 + length vs ≡ length vs = omega arith in
      omega (arith, sum_sizes-before vs 0 (length vs), ap (before vs) z)

  before-flatten : (vs : List (List A)) → before vs (length vs) ≡ length (flatten vs)
  unfolding before
  before-flatten [] = refl
  before-flatten (v ∷ vs) =
      omega (arith, before-cons v vs (length vs), before-flatten vs, length-append v (flatten vs))

  pub size-length : (vs : List (List A)) → size vs ≡ length (flatten vs)
  size-length vs = size-before vs ∙ before-flatten vs

  pub deref-position :
      (vs : List (List A)) (it : Iterator)
      → IsValid vs it
      → deref vs it ≡ get_elem? (flatten vs) (position vs it)
  unfolding deref
  deref-position vs it v =
      sym (get_elem?-flatten vs it.index it.iter v.in_views (ground (arith, v.in_view, v.settled)))

  -- Dropping an element less.
  pub drop_step :
      (xs : List A) (p : ℕ)
      → p < length xs
      → (x : A) × (get_elem? xs p ≡ some x) × (drop p xs ≡ x ∷ drop (p + 1) xs)
  drop_step [] p l = absurd (omega arith)
  drop_step (x ∷ xs) zero l = (x, refl, refl)
  drop_step (x ∷ xs) (suc p) l =
      let (y, e, q) = drop_step xs p (omega arith) in
      let s : suc (p + 1) ≡ suc p + 1 = omega arith in (y, e, q ∙ ap (λ n. y ∷ drop n (x ∷ xs)) s)

  pub drop-length : (xs : List A) (p : ℕ) → p ≡ length xs → drop p xs ≡ []
  drop-length [] zero e = refl
  drop-length [] (suc p) e = refl
  drop-length (x ∷ xs) zero e = absurd (omega arith)
  drop-length (x ∷ xs) (suc p) e = drop-length xs p (omega arith)
