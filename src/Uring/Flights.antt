-- ===== src/Uring/Flights.antt =====
-- The tasks of include/async/Tasks.hpp, the pool of include/async/Loop.hpp, the ring of include/async/Uring.hpp and the awaiters of
-- include/uring/Socket.hpp together: which coroutine is queued, runs, or waits for a completion.
-- Thread `i` serves the queue with the number `i`.
pub mod Once
pub mod Read
pub mod Tests
use coro_iomultiplex.Prelude.{
  ℕ, ◌+◌, ◌≤◌, ◌≡◌, ◌≢◌, ◌&&◌, not, ◌==◌, if◌then◌else◌, Bool, true, false, List, [], ◌∷◌, All,
  Option, none, some, get_elem?, set, sum_of, same_number, remove_at, Expected, value, unexpected,
}
use coro_iomultiplex.Http.Socket.{Answer}
use coro_iomultiplex.Async.Pool.{Pool, add_task, runs, run_tasks}
use coro_iomultiplex.Async.Pool.Counts.{queued}
use coro_iomultiplex.Uring.{
  UserData, Cqe, started, reap, await_io, await_accept, uring_code, sqe_busy,
}

-- A thread: it waits for a task, it runs one, or it has suspended its task and is about to return.
pub data Place : Type 0 where
  idle leaves : Place
  works : ℕ → Place

-- A coroutine that waits for another by co_await of a Task, which is its prevCoro.
pub record Await : Type 0 where
  pub callee : ℕ
  pub caller : ℕ

-- `flying` are the requests that the kernel has not completed, `results` what a coroutine's awaiter
-- holds for await_resume.
pub record Scene : Type 0 where
  pub pool : Pool
  pub places : List Place
  pub flying : List UserData
  pub awaiting : List Await
  pub results : ℕ → Expected ℕ

abbrev pub at_place : ℕ → Place → ℕ
at_place t idle = 0
at_place t leaves = 0
at_place t (works u) = same_number t u

abbrev pub in_flight : ℕ → UserData → ℕ
in_flight t d = same_number t d.handle

abbrev pub in_await : ℕ → Await → ℕ
in_await t w = same_number t w.caller

-- In how many places a coroutine is: queued, on a thread, or waiting for a completion or for another
-- coroutine.
unfoldable pub tally : ℕ → Scene → ℕ
tally t s =
    queued t s.pool
    + sum_of (at_place t) s.places
    + sum_of (in_flight t) s.flying
    + sum_of (in_await t) s.awaiting

-- The tasks of a multishot request that a completion starts.
abbrev pub news : UserData → Cqe → List ℕ
news caller cqe = if caller.multishot then started caller cqe.res else []

-- A request that goes on after a completion.
abbrev pub goes_on : UserData → Cqe → Bool
goes_on caller cqe = caller.multishot && cqe.more

abbrev pub with_result : ℕ → Expected ℕ → (ℕ → Expected ℕ) → ℕ → Expected ℕ
with_result t v results u = if u == t then v else results u

pub data Step (s : Scene) : Scene → Type 0 where
  takes :
      (done : ℕ → Bool) (i t : ℕ) (p : Pool)
      → get_elem? s.places i ≡ some idle
      → run_tasks done s.pool i ≡ runs p t true
      → Step s (record s { pool = p; places = set s.places i (works t) })
  skips :
      (done : ℕ → Bool) (i t : ℕ) (p : Pool)
      → get_elem? s.places i ≡ some idle
      → run_tasks done s.pool i ≡ runs p t false
      → Step s (record s { pool = p })
  -- A coroutine ends or is suspended for good, and no other waits for it.
  ends :
      (i t : ℕ)
      → get_elem? s.places i ≡ some (works t)
      → All (λ (w : Await). w.callee ≢ t) s.awaiting
      → Step s (record s { places = set s.places i idle })
  returns :
      (i : ℕ)
      → get_elem? s.places i ≡ some leaves
      → Step s (record s { places = set s.places i idle })
  -- co_await of a Task: the thread goes on with the new coroutine; and the end of one that is awaited:
  -- it goes on with the caller.
  awaits :
      (i t u : ℕ)
      → get_elem? s.places i ≡ some (works t)
      → tally u s ≡ 0
      → Step s (record s {
        places = set s.places i (works u);
        awaiting = record { callee = u; caller = t } ∷ s.awaiting;
      })
  resumes :
      (i k : ℕ) (w : Await)
      → get_elem? s.places i ≡ some (works w.callee)
      → get_elem? s.awaiting k ≡ some w
      → Step s
          (record s { places = set s.places i (works w.caller); awaiting = remove_at k s.awaiting })
  -- co_await of the scheduler.
  yields :
      (i t : ℕ) (p : Pool)
      → get_elem? s.places i ≡ some (works t)
      → add_task s.pool t ≡ some p
      → Step s (record s { pool = p; places = set s.places i leaves })
  -- A new coroutine is started.
  spawns :
      (t : ℕ) (p : Pool)
      → tally t s ≡ 0
      → add_task s.pool t ≡ some p
      → Step s (record s { pool = p })
  -- co_await of a send or a receive, with a free entry; and of an accept.
  submits :
      (i t : ℕ) (d d' : UserData)
      → get_elem? s.places i ≡ some (works t)
      → await_io true t d ≡ (d', true)
      → Step s (record s { places = set s.places i leaves; flying = d' ∷ s.flying })
  accepts :
      (i t : ℕ) (handler : ℕ → ℕ) (d d' : UserData)
      → get_elem? s.places i ≡ some (works t)
      → await_accept true t handler d ≡ (d', true)
      → Step s (record s { places = set s.places i leaves; flying = d' ∷ s.flying })
  -- With no entry the coroutine goes on.
  finds_busy :
      (i t : ℕ) (d d' : UserData)
      → get_elem? s.places i ≡ some (works t)
      → await_io false t d ≡ (d', false)
      → Step s (record s { results = with_result t d'.return_val s.results })
  -- reapIOs on a completion; what a multishot request starts are new coroutines.
  completes :
      (k : ℕ) (caller caller' : UserData) (cqe : Cqe) (p : Pool)
      → get_elem? s.flying k ≡ some caller
      → All (λ t. tally t s ≡ 0) (news caller cqe)
      → reap s.pool caller cqe ≡ some (p, caller')
      → Step s (record s {
        pool = p;
        flying = if goes_on caller cqe then s.flying else remove_at k s.flying;
        results = with_result caller.handle caller'.return_val s.results;
      })

pub data Reach (s : Scene) : Scene → Type 0 where
  here : Reach s s
  next : {u v : Scene} → Reach s u → Step u v → Reach s v

-- No coroutine is in two places.
abbrev pub IsApart : Scene → Type 0
IsApart s = (t : ℕ) → tally t s ≤ 1
