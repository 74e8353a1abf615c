-- ===== src/Async/Pool/Many.antt =====
-- Several calls of addTask in turn, as epollWaitEvent of include/async/Epoll.hpp and reapIOs of
-- include/async/Uring.hpp make them.
use coro_iomultiplex.Prelude.{ℕ, ◌≡◌, refl, List, [], ◌∷◌, some, All}
use coro_iomultiplex.Async.Pool.{Pool, bound_to, add_tasks}
use coro_iomultiplex.Async.Pool.Bound.{IsBound}
use coro_iomultiplex.Async.Pool.Add.{add_task-Added}

-- A task that has a queue.
abbrev pub HasQueue : Pool → ℕ → Type 0
HasQueue p t = (i : ℕ) × (bound_to t p.binding ≡ some i)

-- The tasks were added: each has a queue, the bindings from before stand, and the pool is valid.
pub record AllAdded (p : Pool) (ts : List ℕ) (p' : Pool) : Type 0 where
  pub all_bound : All (HasQueue p') ts
  pub kept : (u k : ℕ) → bound_to u p.binding ≡ some k → bound_to u p'.binding ≡ some k
  pub valid : IsBound p'

-- Adding any tasks in turn to a valid pool is defined; each has a queue then, the bindings from
-- before stand, and the pool is valid.
pub add_tasks-AllAdded :
    (ts : List ℕ) (p : Pool)
    → IsBound p
    → (p' : Pool) × (add_tasks p ts ≡ some p') × AllAdded p ts p'
unfolding add_tasks
add_tasks-AllAdded [] p w = (p, refl, record { all_bound = tt; kept = λ u k h. h; valid = w })
add_tasks-AllAdded (t ∷ ts) p w =
    let (q, first, a) = add_task-Added p t w in
    let (p', rest, b) = add_tasks-AllAdded ts q a.valid in
    (
      p',
      rw (first, add_tasks) rest,
      record {
        all_bound = ((a.queue, b.kept t a.queue a.is_bound), b.all_bound);
        kept = λ u k h. b.kept u k (a.kept u k h);
        valid = b.valid;
      },
    )
