-- ===== src/Exec/CvQueue/Run.antt =====
-- Histories of a `cv_queue`: the calls that threads make, in the order in which they get the mutex.
use yk_util.Base.{ℕ, Bool, true, false, List, [], ◌∷◌, ◌++◌, Option, some}
use yk_util.Base.Int.{ℤ}
use yk_util.Exec.CvQueue.Flags.{Traits}
use yk_util.Exec.CvQueue.{
  CvQueue, Outcome, returned, Checked, ok, length_error, set_capacity, push_wait, pop_wait, close,
  open_again, clear,
}

pub data Call {ℓ} (A : Type ℓ) : Type ℓ where
  pushes : A → Call A
  pops : Call A
  closes : Call A
  opens : Call A
  clears : Call A
  sets_capacity : ℤ → Call A

-- The queue, with what its callers have seen of it.
pub record History {ℓ} (A : Type ℓ) : Type ℓ where
  pub queue : CvQueue A
  pub accepted : List A  -- values whose `push_wait` returned `true`, oldest first
  pub delivered : List A  -- values that `pop_wait` handed out, oldest first
  pub discarded : List A  -- values that `clear` dropped

module _ {ℓ} {A : Type ℓ} where
  abbrev pub accept : A → Outcome Bool → List A → List A
  accept x (returned true) xs = xs ++ x ∷ []
  accept x _ xs = xs

  abbrev pub deliver : Outcome (Option A) → List A → List A
  deliver (returned (some x)) xs = xs ++ x ∷ []
  deliver _ xs = xs

  -- A call that throws leaves the queue as it was.
  abbrev pub after : CvQueue A → Checked (CvQueue A) → CvQueue A
  after q (ok q') = q'
  after q (length_error e) = q

  unfoldable pub step : Traits → ℕ → History A → Call A → History A
  step t max_size h (pushes x) =
      let r = push_wait t h.queue x in record h { queue = r.0; accepted = accept x r.1 h.accepted }
  step t max_size h pops =
      let r = pop_wait t h.queue in record h { queue = r.0; delivered = deliver r.1 h.delivered }
  step t max_size h closes = record h { queue = close h.queue }
  step t max_size h opens = record h { queue = open_again h.queue }
  step t max_size h clears = record h {
    queue = clear h.queue;
    discarded = h.discarded ++ h.queue.buf;
  }
  step t max_size h (sets_capacity c) = record h {
    queue = after h.queue (set_capacity max_size c h.queue);
  }

  unfoldable pub run : Traits → ℕ → History A → List (Call A) → History A
  run t max_size h [] = h
  run t max_size h (c ∷ cs) = run t max_size (step t max_size h c) cs

  unfoldable pub start : ℕ → History A
  start capacity = record {
    queue = record { buf = []; capacity = capacity; closed = false; not_full = 0; not_empty = 0 };
    accepted = [];
    delivered = [];
    discarded = [];
  }
