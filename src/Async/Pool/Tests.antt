-- ===== src/Async/Pool/Tests.antt =====
-- threadPool of include/async/Loop.hpp on concrete calls.
use coro_iomultiplex.Prelude.{
  ℕ, ◌≡◌, refl, arith, List, [], ◌∷◌, ◌++◌, ◌==◌, none, some, Bool, true, false, length, get_elem?,
  take,
}
use coro_iomultiplex.Async.Pool.{
  Pool, at_queue, bound_to, next_queue, push_back, add_task, runs, run_tasks, contains, clean_tasks,
  erase_if,
}
use coro_iomultiplex.Async.Pool.Bound.{IsBound}
use coro_iomultiplex.Async.Pool.Add.{Added, add_task-Added}
use coro_iomultiplex.Async.Pool.Crowds.{
  bindings, bound_to-old, bindings-InRange, length-bindings, full,
}
use coro_iomultiplex.Async.Pool.Clean.{Cleaned, clean_tasks-Cleaned}
use coro_iomultiplex.Async.Pool.History.{World, IsSafe, adds, run_tasks-not_destroyed}
use coro_iomultiplex.Async.Pool.History as Runs
use coro_iomultiplex.Async.Pool.Fifo as Fifo
use coro_iomultiplex.Async.Pool.Waiting.{Run-served}
use coro_iomultiplex.Async.Pool.Launch.{
  Starting, fresh, pool_of, InTime, start_may_fail, start-InTime, begin,
}
use coro_iomultiplex.Async.Pool.Launch as Launch

-- Two threads, without a task; and after addTask(4).
abbrev idle : Pool
idle = record { queues = [] ∷ ([] ∷ []); current = at_queue 0; binding = [] }

abbrev busy : Pool
busy = record { queues = (4 ∷ []) ∷ ([] ∷ []); current = at_queue 1; binding = (4, 0) ∷ [] }

idle-IsBound : IsBound idle
idle-IsBound = record { in_place = (tt, (tt, tt)); in_range = tt; ready = omega arith }

busy-IsBound : IsBound busy
unfolding bound_to
busy-IsBound = record {
  in_place = ((refl, tt), (tt, tt));
  in_range = (omega arith, refl, tt);
  ready = omega arith;
}

abbrev never : ℕ → Bool
never t = false

added : add_task idle 4 ≡ some busy
unfolding add_task push_back next_queue bound_to
added = refl

taken : run_tasks never busy 0 ≡ runs (record busy { queues = [] ∷ ([] ∷ []) }) 4 true
unfolding run_tasks
taken = refl

add_task-Added_example : (p' : Pool) × (add_task idle 4 ≡ some p') × Added idle 4 p'
add_task-Added_example = add_task-Added idle 4 idle-IsBound

-- As many tasks as the limit, of which two are queued and one is done.
abbrev crowded : Pool
crowded = record { queues = (3 ∷ (5 ∷ [])) ∷ []; current = at_queue 0; binding = bindings 10000 }

crowded-IsBound : IsBound crowded
crowded-IsBound = record {
  in_place = ((bound_to-old 10000 3 (omega arith), (bound_to-old 10000 5 (omega arith), tt)), tt);
  in_range = bindings-InRange 10000;
  ready = omega arith;
}

clean_tasks-Cleaned_example :
    Cleaned
      (λ t. t == 3)
      crowded
      (clean_tasks (λ t. t == 3) crowded).0
      (clean_tasks (λ t. t == 3) crowded).1
clean_tasks-Cleaned_example =
    clean_tasks-Cleaned (λ t. t == 3) crowded crowded-IsBound
      (full (length (bindings 10000)) (length-bindings 10000))

abbrev calm : World
calm = record { pool = idle; destroyed = [] }

calm-IsSafe : IsSafe calm
unfolding contains
calm-IsSafe = record { valid = idle-IsBound; unbound = λ u h. absurd (ground arith) }

abbrev after : World
after = record { pool = busy; destroyed = [] }

calm-after : Runs.Reach calm after
unfolding contains
calm-after = Runs.next Runs.here (adds 4 busy refl added)

run_tasks-not_destroyed_example : contains 4 [] ≡ false
run_tasks-not_destroyed_example =
    run_tasks-not_destroyed {w = calm} {u = after} never 0 4
      (record busy { queues = [] ∷ ([] ∷ []) }) true calm-IsSafe calm-after taken

start_may_fail_example :
    (s : Starting) × Launch.Reach 2 fresh s
    × (length s.queue_list ≡ 2)
    × (s.set_up ≡ true)
    × (add_task (pool_of s) 7 ≡ none)
start_may_fail_example = start_may_fail 2 7

-- A task is added, taken, and nothing is left; a round of the cleaner then finds too few bindings.
abbrev events : List Fifo.Event
events = Fifo.added 0 4 ∷ (Fifo.taken 0 4 ∷ [])

abbrev emptied : Pool
emptied = record busy { queues = [] ∷ ([] ∷ []) }

bound-first : bound_to 4 busy.binding ≡ some 0
unfolding bound_to
bound-first = refl

calls : Fifo.Run never emptied idle events
unfolding clean_tasks
calls =
    Fifo.adds 4 0 busy (Fifo.taken 0 4 ∷ []) added bound-first
      (Fifo.takes never 4 0 emptied [] true taken (Fifo.cleans never [] (λ t h. refl) Fifo.ends))

Run-fifo_example :
    (l' : List ℕ) × (get_elem? emptied.queues 0 ≡ some l')
    × (erase_if never (Fifo.taken_from 0 events ++ l')
        ≡ erase_if never ([] ++ Fifo.added_to 0 events))
Run-fifo_example = Fifo.Run-fifo never emptied idle events 0 [] idle-IsBound calls refl

-- The task is taken from where it stands.
taking : Fifo.Run never emptied busy (Fifo.taken 0 4 ∷ [])
taking = Fifo.takes never 4 0 emptied [] true taken Fifo.ends

Run-served_example : contains 4 (take 1 (Fifo.taken_from 0 (Fifo.taken 0 4 ∷ []))) ≡ true
unfolding Fifo.taken_from
Run-served_example =
    Run-served never 4 0 emptied busy 0 (Fifo.taken 0 4 ∷ []) [] [] refl busy-IsBound taking refl
      (omega arith) (omega arith)
