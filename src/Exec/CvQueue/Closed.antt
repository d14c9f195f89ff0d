-- ===== src/Exec/CvQueue/Closed.antt =====
-- The calls of producers and consumers neither open nor close a `cv_queue`.
use yk_util.Base.{◌≡◌, arith}
use yk_util.Exec.CvQueue.Flags.{Traits}
use yk_util.Exec.CvQueue.{CvQueue, push, pop, push_wait, pop_wait}

module _ {A : Type 0} where
  push-closed : (t : Traits) (q : CvQueue A) (x : A) → (push t q x).closed ≡ q.closed
  unfolding push
  push-closed t q x = ground arith

  pub push_wait-closed :
      (t : Traits) (q : CvQueue A) (x : A) → (push_wait t q x).0.closed ≡ q.closed
  unfolding push_wait
  push_wait-closed t q x = ground (arith, push-closed t q x)

  pop-closed : (t : Traits) (q : CvQueue A) → (pop t q).0.closed ≡ q.closed
  unfolding pop
  pop-closed t q = ground arith

  pub pop_wait-closed : (t : Traits) (q : CvQueue A) → (pop_wait t q).0.closed ≡ q.closed
  unfolding pop_wait
  pop_wait-closed t q = ground (arith, pop-closed t q)
