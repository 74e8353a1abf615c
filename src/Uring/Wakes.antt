-- ===== src/Uring/Wakes.antt =====
-- reapIOs of include/async/Uring.hpp on the pool.
use coro_iomultiplex.Prelude.{◌≡◌, refl, some}
use coro_iomultiplex.Async.Pool.{Pool}
use coro_iomultiplex.Async.Pool.Bound.{IsBound}
use coro_iomultiplex.Async.Pool.Many.{AllAdded, add_tasks-AllAdded}
use coro_iomultiplex.Uring.{UserData, Cqe, woken, completed, reap}

-- reapIOs on a completion, with a valid pool, is defined: each task that the completion wakes has a
-- queue then, the caller reads the result, and the pool stays valid.
pub reap-AllAdded :
    (p : Pool) (caller : UserData) (cqe : Cqe)
    → IsBound p
    → (p' : Pool) × (reap p caller cqe ≡ some (p', completed caller cqe))
      × AllAdded p (woken caller cqe) p'
unfolding reap
reap-AllAdded p caller cqe w =
    let (p', run, added) = add_tasks-AllAdded (woken caller cqe) p w in
    (p', rw (run, reap) refl, added)
