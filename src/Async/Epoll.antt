-- ===== src/Async/Epoll.antt =====
-- epollInstance of include/async/Epoll.hpp. What epoll_ctl and epoll_wait give is an argument; the
-- events of a wait are the tasks that their data point to.
pub mod Sockets
use coro_iomultiplex.Prelude.{ℕ, ◌≡◌, refl, List, [], ◌∷◌, ◌++◌, map, Option, none, some, Expected}
use coro_iomultiplex.Http.Socket.{Answer, returned, failed, check_error}
use coro_iomultiplex.Async.Pool.{Pool, add_tasks}
use coro_iomultiplex.Async.Pool.Bound.{IsBound}
use coro_iomultiplex.Async.Pool.Many.{AllAdded, add_tasks-AllAdded}

-- addEvent, modifyEvent and deleteEvent.
abbrev pub control_event : Answer (Unit {0}) → Expected (Unit {0})
control_event answer = check_error answer

-- A round of epollWaitEvent in the task `self`, which adds itself at the end; `none` is undefined: the
-- use of end() by addTask, or the range from 0 to -1 after a wait that failed.
unfoldable pub wait_round : Pool → ℕ → Answer (List ℕ) → Option Pool
unfolding add_tasks
wait_round p self (failed errno) = none
wait_round p self (returned events) = add_tasks p (events ++ (self ∷ []))

-- Rounds of epollWaitEvent; between two of them the pool may change.
unfoldable pub wait_rounds : (Pool → Pool) → Pool → ℕ → List (Answer (List ℕ)) → Option Pool
unfolding wait_round
wait_rounds between p self [] = some p
wait_rounds between p self (answer ∷ answers) = elim (wait_round p self answer) [
  | none ↦ none
  | some p' ↦ wait_rounds between (between p') self answers
]

-- A wait that succeeds, with a valid pool, is defined: each event's task has a queue then, and so
-- has the task that waits; the bindings from before stand, and the pool stays valid.
pub wait_round-AllAdded :
    (p : Pool) (self : ℕ) (events : List ℕ)
    → IsBound p
    → (p' : Pool) × (wait_round p self (returned events) ≡ some p')
      × AllAdded p (events ++ (self ∷ [])) p'
unfolding wait_round
wait_round-AllAdded p self events w = add_tasks-AllAdded (events ++ (self ∷ [])) p w

-- Where no wait fails and what happens in between keeps the pool valid, epollWaitEvent goes on over
-- any number of rounds, and the pool stays valid.
pub wait_rounds-IsBound :
    (between : Pool → Pool) (p : Pool) (self : ℕ) (waits : List (List ℕ))
    → IsBound p
    → ((q : Pool) → IsBound q → IsBound (between q))
    → (p' : Pool) × (wait_rounds between p self (map returned waits) ≡ some p') × IsBound p'
unfolding wait_rounds
wait_rounds-IsBound between p self [] w keeps = (p, refl, w)
wait_rounds-IsBound between p self (events ∷ waits) w keeps =
    let (q, e, added) = wait_round-AllAdded p self events w in
    let (p', rest, w') =
      wait_rounds-IsBound between (between q) self waits (keeps q added.valid) keeps in
    (p', rw (e, wait_rounds) rest, w')
