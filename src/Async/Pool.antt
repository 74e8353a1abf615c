-- ===== src/Async/Pool.antt =====
-- threadPool of include/async/Loop.hpp. A task is the address of its coroutine, a std::list
-- iterator the number of its queue. Each call holds its locks for as long as it reads or writes
-- what they guard, so a call is one step; a call on an iterator to no queue is undefined.
pub mod Bound
pub mod Add
pub mod Clean
pub mod Crowds
pub mod History
pub mod Launch
pub mod Many
pub mod Fifo
pub mod Counts
pub mod Waiting
pub mod Threads
pub mod Turns
pub mod Tests
use coro_iomultiplex.Prelude.{
  ℕ, zero, suc, ◌+◌, ◌==◌, ltb, List, [], ◌∷◌, ◌++◌, Option, none, some, Bool, true, false, ◌&&◌,
  not, if◌then◌else◌, length, get_elem?, set,
}

-- queueListIter: a queue, or end().
pub data Cursor : Type 0 where
  at_queue : ℕ → Cursor
  at_end : Cursor

pub record Pool : Type 0 where
  pub queues : List (List ℕ)
  pub current : Cursor
  pub binding : List (ℕ × ℕ)

-- taskBinding.find(task).
unfoldable pub bound_to : ℕ → List (ℕ × ℕ) → Option ℕ
bound_to t [] = none
bound_to t ((u, i) ∷ b) = if u == t then some i else bound_to t b

-- currentQueue++, back to begin() at end().
unfoldable pub next_queue : ℕ → ℕ → Cursor
next_queue count i = if suc i == count then at_queue 0 else at_queue (suc i)

-- targetQueue->tasks.push_back(task).
unfoldable pub push_back : Pool → ℕ → ℕ → Option Pool
push_back p i t = elim (get_elem? p.queues i) [
  | none ↦ none
  | some q ↦ some (record p { queues = set p.queues i (q ++ (t ∷ [])) })
]

-- addTask; none is a use of end().
unfoldable pub add_task : Pool → ℕ → Option Pool
unfolding push_back next_queue
add_task p t = elim (bound_to t p.binding) [
  | some i ↦ push_back p i t
  | none ↦ elim p.current [
    | at_end ↦ none
    | at_queue i ↦
        push_back
          (record p { current = next_queue (length p.queues) i; binding = (t, i) ∷ p.binding }) i t
  ]
]

-- addTask of each task in turn; `none` is a use of end().
unfoldable pub add_tasks : Pool → List ℕ → Option Pool
add_tasks p [] = some p
add_tasks p (t ∷ ts) = elim (add_task p t) [ none ↦ none | some p' ↦ add_tasks p' ts ]

-- What runTasks does with the front task.
pub data Ran : Type 0 where
  waits : Ran
  runs : Pool → ℕ → Bool → Ran

-- runTasks, on one queue: it waits while the queue is empty, or takes the front task and resumes
-- it unless it is done. A thread that finds the clean lock taken returns and changes nothing.
unfoldable pub run_tasks : (ℕ → Bool) → Pool → ℕ → Ran
run_tasks done p i = elim (get_elem? p.queues i) [
  | none ↦ waits
  | some q ↦ elim q [
    | [] ↦ waits
    | t ∷ rest ↦ runs (record p { queues = set p.queues i rest }) t (not (done t))
  ]
]

unfoldable pub contains : ℕ → List ℕ → Bool
contains t [] = false
contains t (u ∷ ts) = if u == t then true else contains t ts

-- std::erase_if keeps the rest in order.
unfoldable pub erase_if : (ℕ → Bool) → List ℕ → List ℕ
erase_if p [] = []
erase_if p (t ∷ ts) = let rest = erase_if p ts in if p t then rest else t ∷ rest

-- doneTasks[i]: the done tasks that are bound to a queue.
unfoldable pub done_tasks : (ℕ → Bool) → ℕ → List (ℕ × ℕ) → List ℕ
done_tasks done i [] = []
done_tasks done i ((t, j) ∷ b) =
    let rest = done_tasks done i b in if done t && (j == i) then t ∷ rest else rest

-- std::erase_if on taskBinding.
unfoldable pub unbind_done : (ℕ → Bool) → List (ℕ × ℕ) → List (ℕ × ℕ)
unbind_done done [] = []
unbind_done done ((t, j) ∷ b) =
    let rest = unbind_done done b in if done t then rest else (t, j) ∷ rest

-- All tasks of doneTasks, which are destroyed.
unfoldable pub all_done : (ℕ → Bool) → List (ℕ × ℕ) → List ℕ
all_done done [] = []
all_done done ((t, j) ∷ b) = let rest = all_done done b in if done t then t ∷ rest else rest

-- The loop over the queues, from the queue with number `i` on.
unfoldable pub clean_queues : (ℕ → Bool) → List (ℕ × ℕ) → ℕ → List (List ℕ) → List (List ℕ)
clean_queues done b i [] = []
clean_queues done b i (q ∷ qs) =
    erase_if (λ t. contains t (done_tasks done i b)) q ∷ clean_queues done b (suc i) qs

abbrev pub clean_limit : ℕ
clean_limit = 10000

-- One round of cleanTasks: the pool, and the tasks that were destroyed.
unfoldable pub clean_tasks : (ℕ → Bool) → Pool → Pool × List ℕ
clean_tasks done p = if ltb (length p.binding) clean_limit then (p, []) else (
  record p {
    queues = clean_queues done p.binding 0 p.queues;
    binding = unbind_done done p.binding;
  },
  all_done done p.binding,
)
