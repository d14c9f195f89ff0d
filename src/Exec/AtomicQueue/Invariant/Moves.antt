-- ===== src/Exec/AtomicQueue/Invariant/Moves.antt =====
-- An access of one thread keeps the invariant.
use yk_util.Base.{ℕ, suc, ◌≡◌, ◌≢◌, refl, sym, subst, some, ◌==◌, arith, ==_iff, if-elim}
use yk_util.Exec.AtomicQueue.{update, Memory, Pc, idle}
use yk_util.Exec.AtomicQueue.Invariant.Defs.{ticket, Fits, Shared, Inv}
use yk_util.Exec.AtomicQueue.Invariant.Whole.{later-Shared}

update-elim :
    {X : Type 0} (P : ℕ → X → Type 0) (f : ℕ → X) (i : ℕ) (a : X)
    → P i a
    → ((j : ℕ) → j ≢ i → P j (f j))
    → (j : ℕ) → P j (update f i a j)
update-elim P f i a h k j =
    if-elim (P j) (j == i) a (f j) (λ e. subst (λ i. P i a) (sym ((==_iff j i).0 e)) h)
      (λ e. k j (λ q. ground (arith, q, e)))

module _ {A : Type 0} (cap : ℕ) (m : Memory A) where
  -- Nobody has the ticket that is taken next.
  pub fresh_head : (p : Pc A) → Fits cap m p → ticket p ≢ some (0, m.head)
  fresh_head (idle x) f = λ e. cc
  fresh_head p f = λ e. ground arith

  pub fresh_tail : (p : Pc A) → Fits cap m p → ticket p ≢ some (1, m.tail)
  fresh_tail (idle x) f = λ e. cc
  fresh_tail p f = λ e. ground arith

module _ {A : Type 0} (cap n : ℕ) (m : Memory A) (pc : ℕ → Pc A) (inv : Inv cap m n pc)
    (i : ℕ) where
  -- Another thread has another ticket.
  pub other :
      (d k : ℕ) → ticket (pc i) ≡ some (d, k) → (j : ℕ) → j ≢ i → ticket (pc j) ≢ some (d, k)
  other d k e j ne e' = ne (inv.unique j i d k e' e)

  pub put-Inv :
      (m' : Memory A) (p' : Pc A)
      → Shared cap m' (suc n)
      → Fits cap m' p'
      → ((j : ℕ) → j ≢ i → Fits cap m' (pc j))
      → ((d k : ℕ) → ticket p' ≡ some (d, k) → (j : ℕ) → j ≢ i → ticket (pc j) ≢ some (d, k))
      → Inv cap m' (suc n) (update pc i p')
  put-Inv m' p' s own others apart = record {
    shared = s;
    fits = update-elim (λ j p. Fits cap m' p) pc i p' own others;
    unique = λ j j' d k.
        update-elim
          (λ j p. ticket p ≡ some (d, k) → ticket (update pc i p' j') ≡ some (d, k) → j ≡ j') pc i
          p'
          (λ e.
            update-elim (λ j' q. ticket q ≡ some (d, k) → i ≡ j') pc i p' (λ e'. refl)
              (λ j' ne e'. absurd (apart d k e j' ne e')) j')
          (λ j ne e.
            update-elim (λ j' q. ticket q ≡ some (d, k) → j ≡ j') pc i p'
              (λ e'. absurd (apart d k e' j ne e)) (λ j' ne' e'. inv.unique j j' d k e e') j')
          j;
  }

  -- Memory is left alone, and the ticket, if any, is kept.
  pub stay-Inv :
      (p' : Pc A)
      → Fits cap m p'
      → ((d k : ℕ) → ticket p' ≡ some (d, k) → ticket (pc i) ≡ some (d, k))
      → Inv cap m (suc n) (update pc i p')
  stay-Inv p' f same =
      put-Inv m p' (later-Shared cap n m inv.shared) f (λ j ne. inv.fits j)
        (λ d k e. other d k (same d k e))
