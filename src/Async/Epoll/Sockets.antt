-- ===== src/Async/Epoll/Sockets.antt =====
-- The sockets that epollInstance watches, and the coroutines that hold them: acceptAll of
-- include/http/Socket.hpp, httpHandle and responseHandler of demo/httptest.cpp, epollWaitEvent of
-- include/async/Epoll.hpp, and the pool of include/async/Loop.hpp. A coroutine holds the socket among
-- its parameters until it is destroyed; the last one to go closes the descriptor.
mod Rounds
mod Stale
mod Ends
mod Tests
mod Watched
use coro_iomultiplex.Prelude.{
  ℕ, ◌≡◌, refl, sym, ap, ◌∙◌, subst, List, [], ◌∷◌, ◌++◌, some, arith, length, ltb, Bool, true,
  false, ◌==◌, ◌&&◌, if◌then◌else◌, inl, inr, ◌⊎◌, Bool-cases,
}
use coro_iomultiplex.Async.Pool.{
  Pool, bound_to, add_task, runs, run_tasks, contains, clean_tasks, clean_limit,
}
use coro_iomultiplex.Async.Pool.Add.{Added, add_task-Added, run_tasks-IsBound}
use coro_iomultiplex.Async.Pool.Clean.{Cleaned, clean_tasks-Cleaned}
use coro_iomultiplex.Async.Pool.History.{
  World, IsSafe, contains-append, clean_tasks-few, Step-IsSafe, run_tasks-not_destroyed,
}
use coro_iomultiplex.Async.Pool.History

-- Whether the socket whose events resume `h` is held by `r`.
unfoldable pub is_held : ℕ → ℕ → List (ℕ × ℕ) → Bool
is_held h r [] = false
is_held h r ((g, q) ∷ held) = if (g == h) && (q == r) then true else is_held h r held

-- The pool with the tasks that it destroyed, and who holds the socket of which handler.
pub record Scene : Type 0 where
  pub world : World
  pub held : List (ℕ × ℕ)

abbrev pub with_pool : World → Pool → World
with_pool w p = record w { pool = p }

abbrev pub cleaned : (ℕ → Bool) → World → World
cleaned done w = record {
  pool = (clean_tasks done w.pool).0;
  destroyed = (clean_tasks done w.pool).1 ++ w.destroyed;
}

-- acceptAll registers a socket with the handler that it made; the handler makes a responder, which
-- shares the socket, and adds it; epollWaitEvent adds the handler of a socket that is open, for some
-- coroutine holds it; a coroutine that is not destroyed is added; a thread takes a task; the cleaner
-- makes a round.
pub data Step (s : Scene) : Scene → Type 0 where
  accepts :
      (t : ℕ) → contains t s.world.destroyed ≡ false → Step s (record s { held = (t, t) ∷ s.held })
  shares :
      (h r : ℕ) (p : Pool)
      → is_held h h s.held ≡ true
      → contains h s.world.destroyed ≡ false
      → contains r s.world.destroyed ≡ false
      → add_task s.world.pool r ≡ some p
      → Step s (record { world = with_pool s.world p; held = (h, r) ∷ s.held })
  reports :
      (h r : ℕ) (p : Pool)
      → is_held h r s.held ≡ true
      → contains r s.world.destroyed ≡ false
      → add_task s.world.pool h ≡ some p
      → Step s (record s { world = with_pool s.world p })
  adds :
      (t : ℕ) (p : Pool)
      → contains t s.world.destroyed ≡ false
      → add_task s.world.pool t ≡ some p
      → Step s (record s { world = with_pool s.world p })
  takes :
      (done : ℕ → Bool) (i t : ℕ) (p : Pool) (resumed : Bool)
      → run_tasks done s.world.pool i ≡ runs p t resumed
      → Step s (record s { world = with_pool s.world p })
  cleans : (done : ℕ → Bool) → Step s (record s { world = cleaned done s.world })

pub data Reach (s : Scene) : Scene → Type 0 where
  here : Reach s s
  next : {u v : Scene} → Reach s u → Step u v → Reach s v

-- When a handler has returned, so has each coroutine that holds its socket and is not destroyed.
abbrev pub EndsLast : (ℕ → Bool) → Scene → Type 0
EndsLast done s =
    (h r : ℕ)
    → is_held h r s.held ≡ true
    → contains r s.world.destroyed ≡ false
    → done h ≡ true
    → done r ≡ true

-- So it is in the step, if the cleaner makes a round.
abbrev pub StepEndsLast : {s u : Scene} → Step s u → Type 0
StepEndsLast (accepts t new) = Unit
StepEndsLast (shares h r p own alive new e) = Unit
StepEndsLast (reports h r p held alive e) = Unit
StepEndsLast (adds t p new e) = Unit
StepEndsLast (takes done i t p resumed e) = Unit
StepEndsLast {s} (cleans done) = EndsLast done s

-- So it is in each step.
abbrev pub HandlersEndLast : {s u : Scene} → Reach s u → Type 0
HandlersEndLast here = Unit
HandlersEndLast (next r st) = HandlersEndLast r × StepEndsLast st
