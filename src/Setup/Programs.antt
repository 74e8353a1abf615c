-- ===== src/Setup/Programs.antt =====
-- The programs demo/uringhttp.cpp, demo/httptest.cpp and demo/epolltest.cpp until they enter the
-- pool. The handles of the tasks that they make are arguments.
use coro_iomultiplex.Prelude.{
  ℕ, zero, suc, ◌≡◌, ◌≢◌, ltb, arith, if◌then◌else◌, List, [], ◌∷◌, Option, none, some, Text, codes,
  value, unexpected, length, get_elem?,
}
use coro_iomultiplex.Http.Socket.{Answer}
use coro_iomultiplex.Async.Pool.{
  Pool, at_queue, bound_to, next_queue, push_back, add_task, add_tasks,
}
use coro_iomultiplex.Async.Epoll.{control_event}
use coro_iomultiplex.Setup.{M, ◌>>=◌, pure, Calls, launch, epoll_instance, uring_instance}

-- argv[i], or a default.
abbrev argument : List Text → ℕ → Text → Text
argument args i otherwise = elim (get_elem? args i) [ none ↦ otherwise | some a ↦ a ]

-- A program that runs: the pool that it enters, where its server listens and on which port, its web
-- root, and the tasks that are registered for a descriptor.
pub record Entered : Type 0 where
  pub pool : Pool
  pub server : ℕ
  pub port : Text
  pub web_root : Text
  pub events : List (ℕ × ℕ)

-- It prints its usage, it enters the pool, or it uses end() of the queues.
pub data Start : Type 0 where
  usage undefined : Start
  entered : Entered → Start

abbrev enter : Option Pool → ℕ → Text → Text → List (ℕ × ℕ) → Start
enter none fd port root events = undefined
enter (some p) fd port root events =
    entered (record { pool = p; server = fd; port = port; web_root = root; events = events })

-- main of demo/uringhttp.cpp behind the test for its arguments.
unfoldable pub uring_serve : Calls → Pool → ℕ → ℕ → Text → Text → M Start
uring_serve calls p reaper acceptor port root = do
  fd ← launch calls
  pure (enter (add_tasks p (reaper ∷ (acceptor ∷ []))) fd port root [])

-- demo/uringhttp.cpp: the ring is made before main runs. The arguments begin with the program.
unfoldable pub uring_main : List Text → Answer ℕ → Calls → Pool → ℕ → ℕ → M Start
unfolding uring_serve
uring_main args ring calls p reaper acceptor = do
  _ ← uring_instance ring
  (if ltb (length args) 3
      then pure usage
      else uring_serve calls p reaper acceptor (argument args 1 []) (argument args 2 []))

-- addEvent, whose error is dropped.
abbrev registered : Answer (Unit {0}) → ℕ → ℕ → List (ℕ × ℕ)
registered answer fd task = elim (control_event answer) [
  | value u ↦ (fd, task) ∷ []
  | unexpected e ↦ []
]

-- co_main of demo/httptest.cpp and of demo/epolltest.cpp.
unfoldable pub co_main : Calls → Answer (Unit {0}) → Pool → ℕ → ℕ → Text → Text → M Start
co_main calls added p acceptor waiter port root = do
  fd ← launch calls
  pure (enter (add_task p waiter) fd port root (registered added fd acceptor))

abbrev pub default_port : Text
default_port = codes "12312"

-- main of demo/httptest.cpp.
unfoldable pub reactor_main :
    List Text → Answer ℕ → Calls → Answer (Unit {0}) → Pool → ℕ → ℕ → M Start
unfolding co_main
reactor_main args epoll calls added p acceptor waiter = do
  _ ← epoll_instance epoll
  co_main calls added p acceptor waiter (argument args 1 default_port)
      (argument args 2 (codes "/var/www/"))

-- main of demo/epolltest.cpp.
unfoldable pub echo_main : Answer ℕ → Calls → Answer (Unit {0}) → Pool → ℕ → ℕ → M Start
unfolding co_main
echo_main epoll calls added p acceptor waiter = do
  _ ← epoll_instance epoll
  co_main calls added p acceptor waiter default_port []

abbrev pub no_queues : ℕ → List (List ℕ)
no_queues zero = []
no_queues (suc n) = [] ∷ no_queues n

-- The pool when its threads have made their queues, in time.
abbrev pub started_pool : ℕ → Pool
started_pool n = record { queues = no_queues n; current = at_queue 0; binding = [] }

-- The pool of demo/uringhttp.cpp with two threads or more.
abbrev pub serving_pool : ℕ → ℕ → ℕ → Pool
serving_pool n reaper acceptor = record {
  queues = (reaper ∷ []) ∷ ((acceptor ∷ []) ∷ no_queues n);
  current = next_queue (suc (suc (length (no_queues n)))) 1;
  binding = (acceptor, 1) ∷ ((reaper, 0) ∷ []);
}

pub add_tasks-serving :
    (n reaper acceptor : ℕ)
    → reaper ≢ acceptor
    → add_tasks (started_pool (suc (suc n))) (reaper ∷ (acceptor ∷ []))
      ≡ some (serving_pool n reaper acceptor)
unfolding add_tasks add_task push_back bound_to next_queue
add_tasks-serving n reaper acceptor ne = ground arith
