-- ===== src/Compare/Laws.antt =====
-- Categories of results, and weak orders built from weak orders.
use yk_util.Base.{
  ◌≡◌, refl, true, false, not, ◌&&◌, ◌||◌, Option, none, some, if◌then◌else◌, arith, subst,
}
use yk_util.Compare.{
  Category, partial_ordering, Value, less, greater, is_lt, is_eq, is_unordered, same_as, common,
  is_promotable, then_result, promote_result, Comparator, wrapper_comparator, then_comparator,
  promote_comparator, extract_comparator, Call, then_call, promote_call, both, instantiate,
}

-- A value of a category.
abbrev pub InCategory : Category → Value → Type 0
InCategory category v = (not (same_as category partial_ordering) && is_unordered v) ≡ false

-- What the parts of a comparator satisfy, for the functions in it.
abbrev pub Parts : {A K : Type 0} → (Category → (A → A → Value) → Type 0) → Comparator A K → Type 0
Parts P (wrapper_comparator category f) = P category f
Parts P (then_comparator comp1 comp2) = Parts P comp1 × Parts P comp2
Parts P (promote_comparator comp1 comp2) = Parts P comp1 × Parts P comp2
Parts P (extract_comparator f) = Unit {0}

abbrev pub flip : Value → Value
flip less = greater
flip greater = less
flip v = v

abbrev pub AtMost : Value → Type 0
AtMost v = (is_lt v || is_eq v) ≡ true

-- A function that compares along a weak order.
pub record IsWeakOrder {A : Type 0} (f : A → A → Value) : Type 0 where
  pub total : (x y : A) → is_unordered (f x y) ≡ false
  pub flips : (x y : A) → f y x ≡ flip (f x y)
  pub trans : (x y z : A) → AtMost (f x y) → AtMost (f y z) → AtMost (f x z)

then_result-InCategory :
    (c d : Category) (v w : Value)
    → InCategory c v
    → InCategory d w
    → InCategory (common c d) (then_result v w)
unfolding then_result
then_result-InCategory c d v w p q = ground arith

promote_result-InCategory :
    (c d : Category) (v w : Value)
    → is_promotable c d ≡ true
    → InCategory c v
    → InCategory d w
    → InCategory d (promote_result c d v w)
unfolding promote_result is_promotable
promote_result-InCategory c d v w l p q = ground arith

-- Promotion decides where the first comparator does not, also where it is unordered.
promote_result-then :
    (c d : Category) (v w : Value)
    → is_promotable c d ≡ true
    → InCategory c v
    → promote_result c d v w ≡ (if is_unordered v then w else then_result v w)
unfolding promote_result is_promotable then_result
promote_result-then c d v w l p = ground arith

module _ {A : Type 0} (f g : A → A → Value) (wf : IsWeakOrder f) (wg : IsWeakOrder g) where
  then_result-IsWeakOrder : IsWeakOrder (λ x y. then_result (f x y) (g x y))
  unfolding then_result
  then_result-IsWeakOrder = record {
    total = λ x y. ground (arith, wf.total x y, wg.total x y);
    flips = λ x y. ground (arith, wf.flips x y, wg.flips x y, wf.total x y);
    trans = λ x y z p q. ground (
      arith,
      wf.flips x y,
      wf.flips y z,
      wf.flips x z,
      wf.trans x y z,
      wf.trans y z x,
      wf.trans z x y,
      wg.trans x y z,
      wf.total x y,
      wf.total y z,
      wf.total x z,
    );
  }

same-IsWeakOrder :
    {A : Type 0} (f g : A → A → Value) → ((x y : A) → g x y ≡ f x y) → IsWeakOrder f → IsWeakOrder g
same-IsWeakOrder f g e w = record {
  total = λ x y. ground (arith, e x y, w.total x y);
  flips = λ x y. ground (arith, e x y, e y x, w.flips x y);
  trans = λ x y z p q. ground (arith, e x y, e y z, e x z, w.trans x y z);
}

module _ {A K : Type 0} (key_category : Category) (three_way : K → K → Value) where
  both_holds :
      (P : Call A → Type 0) (f : Call A → Call A → Option (Call A)) (o p : Option (Call A))
      (e : Call A)
      → both f o p ≡ some e
      → ((c d : Call A) → o ≡ some c → p ≡ some d → f c d ≡ some e → P e)
      → P e
  both_holds P f none p e h k = cc
  both_holds P f (some c) none e h k = cc
  both_holds P f (some c) (some d) e h k = k c d refl refl h

  promote_call-cases :
      (c d e : Call A)
      → promote_call c d ≡ some e
      → (is_promotable c.category d.category ≡ true)
        × (e.category ≡ d.category)
        × ((x y : A) → e.run x y ≡ promote_result c.category d.category (c.run x y) (d.run x y))
  unfolding promote_call
  promote_call-cases c d e h = ground (arith, h)

  some_inj : (a b : Call A) → some a ≡ some b → a ≡ b
  some_inj a b h = cc

  -- What then_call and promote_call pass on, a comparator that can be called has.
  instantiate-Has :
      (P : Category → (A → A → Value) → Type 0)
      → ((f : A → K) → P key_category (λ x y. three_way (f x) (f y)))
      → ((c d : Call A)
          → P c.category c.run
          → P d.category d.run
          → P (then_call c d).category (then_call c d).run)
      → ((c d e : Call A)
          → promote_call c d ≡ some e
          → P c.category c.run
          → P d.category d.run
          → P e.category e.run)
      → (comp : Comparator A K) (e : Call A) → Parts P comp
      → instantiate key_category three_way comp ≡ some e
      → P e.category e.run
  unfolding instantiate
  instantiate-Has P k t p (wrapper_comparator category f) e parts h =
      subst (λ e. P e.category e.run) (some_inj _ e h) parts
  instantiate-Has P k t p (then_comparator comp1 comp2) e parts h =
      both_holds (λ e. P e.category e.run) (λ c d. some (then_call c d))
        (instantiate key_category three_way comp1) (instantiate key_category three_way comp2) e h
        (λ c d i j q.
          subst (λ e. P e.category e.run) (some_inj _ e q)
            (t c d (instantiate-Has P k t p comp1 c parts.0 i)
              (instantiate-Has P k t p comp2 d parts.1 j)))
  instantiate-Has P k t p (promote_comparator comp1 comp2) e parts h =
      both_holds (λ e. P e.category e.run) promote_call (instantiate key_category three_way comp1)
        (instantiate key_category three_way comp2) e h
        (λ c d i j q.
          p c d e q (instantiate-Has P k t p comp1 c parts.0 i)
            (instantiate-Has P k t p comp2 d parts.1 j))
  instantiate-Has P k t p (extract_comparator f) e parts h =
      subst (λ e. P e.category e.run) (some_inj _ e h) (k f)

  -- A comparator that is built by then, promote and extract from functions whose results are in
  -- the categories of their types has results in the category that its call is given, so a call
  -- of a weak or strong category is never unordered.
  pub instantiate-InCategory :
      (comp : Comparator A K) (e : Call A)
      → ((k l : K) → InCategory key_category (three_way k l))
      → Parts (λ category f. (x y : A) → InCategory category (f x y)) comp
      → instantiate key_category three_way comp ≡ some e
      → (x y : A) → InCategory e.category (e.run x y)
  unfolding then_call
  instantiate-InCategory comp e keys parts h =
      instantiate-Has (λ category f. (x y : A) → InCategory category (f x y))
        (λ f x y. keys (f x) (f y))
        (λ c d p q x y.
          then_result-InCategory c.category d.category (c.run x y) (d.run x y) (p x y) (q x y))
        (λ c d e h p q x y.
          let (l, k, r) = promote_call-cases c d e h in
          rw (k, r x y)
            (promote_result-InCategory c.category d.category (c.run x y) (d.run x y) l (p x y)
              (q x y)))
        comp e parts h

  -- A comparator that is built by then, promote and extract, to any depth, from functions that
  -- compare along weak orders and from keys that do, compares along a weak order whenever a call
  -- of it compiles.
  pub instantiate-IsWeakOrder :
      (comp : Comparator A K) (e : Call A)
      → IsWeakOrder three_way
      → Parts (λ category f. IsWeakOrder f) comp
      → instantiate key_category three_way comp ≡ some e
      → IsWeakOrder e.run
  unfolding then_call
  instantiate-IsWeakOrder comp e keys parts h =
      instantiate-Has (λ category f. IsWeakOrder f)
        (λ f. record {
          total = λ x y. keys.total (f x) (f y);
          flips = λ x y. keys.flips (f x) (f y);
          trans = λ x y z. keys.trans (f x) (f y) (f z);
        })
        (λ c d p q. then_result-IsWeakOrder c.run d.run p q)
        (λ c d e h p q.
          let (l, k, r) = promote_call-cases c d e h in
          same-IsWeakOrder (λ x y. then_result (c.run x y) (d.run x y)) e.run
            (λ x y. ground (
              arith,
              r x y,
              promote_result-then c.category d.category (c.run x y) (d.run x y) l,
              p.total x y,
            ))
            (then_result-IsWeakOrder c.run d.run p q))
        comp e parts h
