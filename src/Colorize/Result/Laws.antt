-- ===== src/Colorize/Result/Laws.antt =====
-- Chains of steps that may fail.
pub use yk_util.Base.{if-elim}
use yk_util.Base.{◌≡◌, refl, ap, ◌∙◌, Option, none, some, Bool, true, false, if◌then◌else◌}
use yk_util.Colorize.Result.{Result, ok, error, undefined, out_of_fuel, ◌>>=◌}

-- Neither undefined, unless that is allowed for, nor out of fuel
abbrev pub EndsOr : {A : Type 0} → Type 0 → Result A → Type 0
EndsOr U (ok a) = Unit {0}
EndsOr U (error e) = Unit {0}
EndsOr U undefined = U
EndsOr U out_of_fuel = ⊥

-- The run did not end for want of fuel.
abbrev pub InFuel : {A : Type 0} → Result A → Type 0
InFuel r = EndsOr (Unit {0}) r

-- The code returns or throws.
abbrev pub Ends : {A : Type 0} → Result A → Type 0
Ends r = EndsOr ⊥ r

pub bind-EndsOr :
    {A B : Type 0} (U : Type 0) (r : Result A) (f : A → Result B)
    → EndsOr U r
    → ((a : A) → r ≡ ok a → EndsOr U (f a))
    → EndsOr U (r >>= f)
bind-EndsOr U (ok a) f h k = k a refl
bind-EndsOr U (error e) f h k = tt
bind-EndsOr U undefined f h k = h
bind-EndsOr U out_of_fuel f h k = elim h [ ]

pub bind-InFuel :
    {A B : Type 0} (r : Result A) (f : A → Result B)
    → InFuel r
    → ((a : A) → r ≡ ok a → InFuel (f a))
    → InFuel (r >>= f)
bind-InFuel r f h k = bind-EndsOr (Unit {0}) r f h k

pub if-EndsOr :
    {A : Type 0} (U : Type 0) (b : Bool) (r s : Result A)
    → EndsOr U r
    → EndsOr U s
    → EndsOr U (if b then r else s)
if-EndsOr U true r s h k = h
if-EndsOr U false r s h k = k

pub option-EndsOr :
    {A B : Type 0} (U : Type 0) (o : Option A) (r : Result B) (f : A → Result B)
    → EndsOr U r
    → ((a : A) → EndsOr U (f a))
    → EndsOr U (elim o [ none ↦ r | some a ↦ f a ])
option-EndsOr U none r f h k = h
option-EndsOr U (some a) r f h k = k a

-- The first step of a chain that succeeds has succeeded.
pub bind-ok :
    {A B : Type 0} (r : Result A) (f : A → Result B) (b : B)
    → (r >>= f) ≡ ok b
    → (a : A) × (r ≡ ok a) × (f a ≡ ok b)
bind-ok (ok a) f b h = (a, refl, h)
bind-ok (error e) f b h = cc
bind-ok undefined f b h = cc
bind-ok out_of_fuel f b h = cc

pub ok-injective : {A : Type 0} {a b : A} → ok a ≡ ok b → a ≡ b
ok-injective h = cc

pub bind-value :
    {A B : Type 0} {r : Result A} (f : A → Result B) {a : A} {s : Result B}
    → r ≡ ok a
    → f a ≡ s
    → (r >>= f) ≡ s
bind-value f e h = ap (λ r. r >>= f) e ∙ h

-- The code returns a value that satisfies the predicate, or throws.
abbrev pub EndsIn : {A : Type 0} → (A → Type 0) → Result A → Type 0
EndsIn P (ok a) = P a
EndsIn P (error e) = Unit {0}
EndsIn P undefined = ⊥
EndsIn P out_of_fuel = ⊥

pub bind-EndsIn :
    {A B : Type 0} (P : A → Type 0) (Q : B → Type 0) (r : Result A) (f : A → Result B)
    → EndsIn P r
    → ((a : A) → r ≡ ok a → P a → EndsIn Q (f a))
    → EndsIn Q (r >>= f)
bind-EndsIn P Q (ok a) f h k = k a refl h
bind-EndsIn P Q (error e) f h k = tt
bind-EndsIn P Q undefined f h k = elim h [ ]
bind-EndsIn P Q out_of_fuel f h k = elim h [ ]

pub Ends-EndsIn : {A : Type 0} (r : Result A) → Ends r → EndsIn (λ a. Unit {0}) r
Ends-EndsIn (ok a) h = tt
Ends-EndsIn (error e) h = tt
Ends-EndsIn undefined h = h
Ends-EndsIn out_of_fuel h = h
