-- ===== src/Uring/Flights/Tests.antt =====
-- A coroutine that receives, from include/uring/Socket.hpp, on the pool and the ring.
use coro_iomultiplex.Prelude.{ℕ, ◌≡◌, refl, arith, false, List, [], ◌∷◌, some, sum_of, value}
use coro_iomultiplex.Http.Socket.{returned, check_error}
use coro_iomultiplex.Async.Pool.{
  Pool, at_queue, bound_to, add_task, add_tasks, push_back, next_queue, run_tasks,
}
use coro_iomultiplex.Async.Pool.Counts.{queued}
use coro_iomultiplex.Uring.{UserData, Cqe, reap, woken, completed, await_io, prep}
use coro_iomultiplex.Uring.Flights.{
  idle, works, Scene, tally, Reach, here, next, takes, submits, returns, awaits, resumes, completes,
  IsApart, with_result,
}
use coro_iomultiplex.Uring.Flights.Once.{Reach-IsApart}
use coro_iomultiplex.Uring.Flights.Read.{StaysQueued, completed_read}
use coro_iomultiplex.Uring.Flights.Read as Read

abbrev bound_pool : List (List ℕ) → Pool
bound_pool queues = record { queues = queues; current = at_queue 0; binding = (4, 0) ∷ [] }

abbrev waiting : UserData
waiting = record { multishot = false; handle = 5; return_val = value 0; multishot_handler = λ n. n }

-- Coroutine 4 is queued, then it runs and awaits 5, which waits for a completion.
abbrev at_first : Scene
at_first = record {
  pool = bound_pool ((4 ∷ []) ∷ []);
  places = idle ∷ [];
  flying = [];
  awaiting = [];
  results = λ t. value 0;
}

abbrev receiving : Scene
receiving = record {
  pool = bound_pool ([] ∷ []);
  places = idle ∷ [];
  flying = waiting ∷ [];
  awaiting = record { callee = 5; caller = 4 } ∷ [];
  results = λ t. value 0;
}

at_first-receiving : Reach at_first receiving
unfolding run_tasks await_io prep tally sum_of
at_first-receiving =
    next
      (next
        (next (next here (takes (λ t. false) 0 4 (bound_pool ([] ∷ [])) refl refl))
          (awaits 0 4 5 refl refl))
        (submits 0 5 waiting waiting refl refl))
      (returns 0 refl)

-- Twelve bytes came.
abbrev done : Cqe
done = record { res = returned 12; more = false }

abbrev both_bound : List (List ℕ) → Pool
both_bound queues = record {
  queues = queues;
  current = at_queue 0;
  binding = (5, 0) ∷ ((4, 0) ∷ []);
}

reaped :
    reap receiving.pool waiting done
    ≡ some (both_bound ((5 ∷ []) ∷ []), record waiting { return_val = value 12 })
unfolding reap woken completed add_tasks add_task push_back next_queue bound_to
reaped = refl

-- Coroutine 5 is resumed with them, and ends; 4 goes on.
abbrev returned_to : Scene
returned_to = record {
  pool = both_bound ([] ∷ []);
  places = works 4 ∷ [];
  flying = [];
  awaiting = [];
  results = with_result 5 (value 12) receiving.results;
}

at_first-returned_to : Reach at_first returned_to
unfolding run_tasks
at_first-returned_to =
    next
      (next
        (next at_first-receiving (
          completes 0 waiting (record waiting { return_val = value 12 }) done
            (both_bound ((5 ∷ []) ∷ [])) refl tt reaped))
        (takes (λ t. false) 0 5 (both_bound ([] ∷ [])) refl refl))
      (resumes 0 0 (record { callee = 5; caller = 4 }) refl refl)

at_first-IsApart : IsApart at_first
unfolding tally sum_of
at_first-IsApart t = ground arith

Reach-IsApart_example : IsApart returned_to
Reach-IsApart_example = Reach-IsApart at_first-IsApart at_first-returned_to

receiving-IsApart : IsApart receiving
unfolding tally sum_of
receiving-IsApart t = ground arith

completed_read_example :
    (queued 5 (both_bound ((5 ∷ []) ∷ [])) ≡ 1)
    × (with_result 5 (value 12) receiving.results 5 ≡ check_error done.res)
completed_read_example =
    completed_read receiving _ 0 waiting (record waiting { return_val = value 12 }) done
      (both_bound ((5 ∷ []) ∷ [])) refl tt reaped receiving-IsApart refl Read.here
