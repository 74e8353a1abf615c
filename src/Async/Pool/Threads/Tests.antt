-- ===== src/Async/Pool/Threads/Tests.antt =====
-- The threads of the pool of include/async/Loop.hpp on concrete calls.
use coro_iomultiplex.Prelude.{ℕ, ◌≡◌, refl, arith, [], ◌∷◌, none, some, Bool, false}
use coro_iomultiplex.Async.Pool.{
  Pool, at_queue, bound_to, next_queue, push_back, add_task, run_tasks,
}
use coro_iomultiplex.Async.Pool.Bound.{IsBound}
use coro_iomultiplex.Async.Pool.Threads.{Crew, Reach, here, next, adds, resumes, resumed_once}

-- Two threads, without a task.
abbrev idle : Pool
idle = record { queues = [] ∷ ([] ∷ []); current = at_queue 0; binding = [] }

idle-IsBound : IsBound idle
idle-IsBound = record { in_place = (tt, (tt, tt)); in_range = tt; ready = omega arith }

-- Task 4 is added, and the first thread resumes it; then it adds itself.
abbrev busy : Pool
busy = record { queues = (4 ∷ []) ∷ ([] ∷ []); current = at_queue 1; binding = (4, 0) ∷ [] }

abbrev emptied : Pool
emptied = record { queues = [] ∷ ([] ∷ []); current = at_queue 1; binding = (4, 0) ∷ [] }

abbrev resting : Crew
resting = record { pool = idle; threads = none ∷ (none ∷ []) }

abbrev working : Crew
working = record { pool = busy; threads = some 4 ∷ (none ∷ []) }

abbrev never : ℕ → Bool
never t = false

resting-working : Reach resting working
unfolding add_task push_back next_queue bound_to run_tasks
resting-working =
    next (next (next here (adds 4 busy refl)) (resumes never 0 4 emptied refl refl))
      (adds 4 busy refl)

resumed_once_example : ◌≡◌ {A = ℕ} 0 0
resumed_once_example =
    resumed_once {c = resting} {d = working} 0 0 4 idle-IsBound (tt, (tt, tt)) resting-working refl
      refl

-- Two tasks in one queue, over three rounds.
abbrev shared : Pool
shared = record {
  queues = (3 ∷ (5 ∷ [])) ∷ [];
  current = at_queue 0;
  binding = (3, 0) ∷ ((5, 0) ∷ []);
}

shared-IsBound : IsBound shared
unfolding bound_to
shared-IsBound = record {
  in_place = ((refl, (refl, tt)), tt);
  in_range = (omega arith, refl, (omega arith, refl, tt));
  ready = omega arith;
}
