-- ===== src/Exec/WorkerPool/Samples.antt =====
-- A pool of three threads, of which two end with an exception.
use yk_util.Base.{ℕ, ◌≡◌, refl, true, false, [], ◌∷◌, none, some}
use yk_util.Exec.WorkerPool.{
  WorkerPool, returns, rethrows, invalid_argument, launch, halt, set_worker_limit,
  rethrow_exceptions, halt_and_clear_impl, join,
}
use yk_util.Exec.WorkerPool.Exceptions.{pending, last_exit, clear_rethrows_last}

abbrev empty_pool : WorkerPool ℕ
empty_pool = record {
  worker_limit = 2;
  threads = [];
  stop_requested = false;
  rethrow_exceptions_on_exit = true;
}

abbrev pool : WorkerPool ℕ
unfolding halt launch
pool = halt (launch (some 9) (launch none (launch (some 7) empty_pool)))

limit_refused : (set_worker_limit 1 empty_pool).1 ≡ invalid_argument
unfolding set_worker_limit
limit_refused = refl

first_call : (rethrow_exceptions pool).1 ≡ rethrows 7
unfolding rethrow_exceptions halt launch
first_call = refl

pool_pending : pending pool.threads ≡ 7 ∷ 9 ∷ []
unfolding join halt launch
pool_pending = refl

clear_rethrows_last_example :
    ((halt_and_clear_impl true pool).1 ≡ last_exit returns (pending pool.threads))
    × ((halt_and_clear_impl true pool).0.threads ≡ [])
    × ((halt_and_clear_impl true pool).0.stop_requested ≡ true)
unfolding halt launch
clear_rethrows_last_example = clear_rethrows_last true pool (refl, (refl, (refl, tt)))
