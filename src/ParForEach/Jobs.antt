-- ===== src/ParForEach/Jobs.antt =====
-- What is called, and what is thrown, when all jobs have ended.
use yk_util.Base.{
  ℕ, ◌+◌, ◌<◌, ◌≡◌, ◌≢◌, refl, sym, ◌∙◌, subst, true, List, [], ◌∷◌, Option, none, some, ltb, ◌==◌,
  arith, if-elim, ==_iff, inl, inr, ◌⊎◌, ltb→lt,
}
use yk_util.ParForEach.{
  JobPolicy, abort_policy, proceed_policy, Job, waiting, invoking, finished, handling, State,
  is_some, update, begin, test, after, advance, step, run,
}

-- `func` was not called for an element, which may be so at the end only after an exception that
-- aborts.
abbrev pub Skipped : {E : Type 0} → JobPolicy → Option E → Type 0
Skipped abort_policy exception = is_some exception ≡ true
Skipped proceed_policy exception = ⊥

still-Skipped :
    {E : Type 0} (policy : JobPolicy) (o : Option E) (e : E)
    → Skipped policy o
    → Skipped policy (some e)
still-Skipped abort_policy o e h = refl
still-Skipped proceed_policy o e h = h

module _ {E : Type 0} (policy : JobPolicy) (func : ℕ → Option E) where
  -- How a job ended: it called `func`, which returned or whose exception, or a later one, is kept, or
  -- it was skipped.
  abbrev pub Ended : Option E → ℕ → ℕ → Type 0
  Ended exception i calls =
      ((calls ≡ 1) × ((func i ≡ none) ⊎ (is_some exception ≡ true)))
      ⊎ ((calls ≡ 0) × Skipped policy exception)

  -- What a job says of its element.
  abbrev pub Fits : Option E → ℕ → ℕ → Job E → Type 0
  Fits exception i calls waiting = calls ≡ 0
  Fits exception i calls invoking = calls ≡ 0
  Fits exception i calls (handling e) = (calls ≡ 1) × (func i ≡ some e)
  Fits exception i calls finished = Ended exception i calls

  -- The exception that is kept is one that a call threw.
  abbrev pub Thrown : ℕ → State E → Type 0
  Thrown n s =
      (e : E) → s.exception ≡ some e → (i : ℕ) × (i < n) × (func i ≡ some e) × (s.invoked i ≡ 1)

  pub record Inv (n : ℕ) (s : State E) : Type 0 where
    pub fits : (i : ℕ) → Fits s.exception i (s.invoked i) (s.jobs i)
    pub thrown : Thrown n s

  still-Fits : (o : Option E) (e : E) (i c : ℕ) (j : Job E) → Fits o i c j → Fits (some e) i c j
  still-Fits o e i c waiting h = h
  still-Fits o e i c invoking h = h
  still-Fits o e i c (handling x) h = h
  still-Fits o e i c finished (inl h) = inl (h.0, inr refl)
  still-Fits o e i c finished (inr h) = inr (h.0, still-Skipped policy o e h.1)

  -- One job takes a new place.
  put-Fits :
      (jobs : ℕ → Job E) (o : Option E) (calls : ℕ → ℕ) (i : ℕ) (j : Job E)
      → Fits o i (calls i) j
      → ((x : ℕ) → x ≢ i → Fits o x (calls x) (jobs x))
      → (x : ℕ) → Fits o x (calls x) (update jobs i j x)
  put-Fits jobs o calls i j own others x =
      if-elim (Fits o x (calls x)) (x == i) j (jobs x)
        (λ e. subst (λ i. Fits o i (calls i) j) (sym ((==_iff x i).0 e)) own)
        (λ e. others x (λ q. ground (arith, q, e)))

  after-Fits : (o f : Option E) (i c : ℕ) → func i ≡ f → c ≡ 1 → Fits o i c (after f)
  unfolding after
  after-Fits o none i c e h = inl (h, inl e)
  after-Fits o (some x) i c e h = (h, e)

test-Fits :
    {E : Type 0} (policy : JobPolicy) (func : ℕ → Option E) (o : Option E) (i c : ℕ)
    → c ≡ 0
    → Fits policy func o i c (test policy o)
unfolding test
test-Fits abort_policy func none i c h = h
test-Fits abort_policy func (some e) i c h = inr (h, refl)
test-Fits proceed_policy func o i c h = h

module _ {E : Type 0} (policy : JobPolicy) (func : ℕ → Option E) where
  advance-Inv :
      (n i : ℕ) (j : Job E) (s : State E)
      → i < n
      → s.jobs i ≡ j
      → Inv policy func n s
      → Inv policy func n (advance policy func i j s)
  unfolding advance
  advance-Inv n i waiting s l e v = record {
    fits =
        put-Fits policy func s.jobs s.exception s.invoked i (test policy s.exception)
          (test-Fits policy func s.exception i (s.invoked i)
            (subst (Fits policy func s.exception i (s.invoked i)) e (v.fits i)))
          (λ x ne. v.fits x);
    thrown = v.thrown;
  }
  advance-Inv n i invoking s l e v =
      let zero_calls : s.invoked i ≡ 0 =
        subst (Fits policy func s.exception i (s.invoked i)) e (v.fits i) in
      record {
        fits =
            put-Fits policy func s.jobs s.exception (update s.invoked i (s.invoked i + 1)) i
              (after (func i)) (after-Fits policy func s.exception (func i) i _ refl (ground arith))
              (λ x ne.
                subst (λ c. Fits policy func s.exception x c (s.jobs x)) (ground arith) (v.fits x));
        thrown = λ e h. let (x, k, q, z) = v.thrown e h in (x, k, q, ground arith);
      }
  advance-Inv n i (handling e) s l q v =
      let (c, f) = subst (Fits policy func s.exception i (s.invoked i)) q (v.fits i) in
      record {
        fits =
            put-Fits policy func s.jobs (some e) s.invoked i finished (inl (c, inr refl))
              (λ x ne. still-Fits policy func s.exception e x (s.invoked x) (s.jobs x) (v.fits x));
        thrown = λ e' h. (i, l, f ∙ h, c);
      }
  advance-Inv n i finished s l e v = v

  pub run-Inv :
      (n : ℕ) (is : List ℕ) (s : State E)
      → Inv policy func n s
      → Inv policy func n (run policy func n is s)
  unfolding run step
  run-Inv n [] s v = v
  run-Inv n (i ∷ is) s v = run-Inv n is (step policy func n i s) (
      if-elim (Inv policy func n) (ltb i n) _ _
        (λ h. advance-Inv n i (s.jobs i) s (ltb→lt i n h) refl v) (λ h. v))

  pub begin-Inv : (n : ℕ) → Inv policy func n begin
  begin-Inv n = record { fits = λ i. refl; thrown = λ e h. cc }
