-- ===== src/Async/WhenAll.antt =====
-- whenAllHelper, whenAllAwaiter and whenAllImpl of include/async/WhenAll.hpp. The loop that runs the
-- helpers, loopInstance, is not in the repository: which of their tasks end before its runAll
-- returns, in which order and with what values, is an argument.
pub mod Gathers
pub mod Returns
pub mod Tests
use coro_iomultiplex.Prelude.{
  ℕ, ◌==◌, List, [], ◌∷◌, Bool, true, false, Option, none, some, if◌then◌else◌, set, size_sub,
  length,
}
use coro_iomultiplex.Async.Tasks.{
  Promise, new_promise, Next, transfers, return_prev, final_suspend, return_coro, get_self, Task,
  detach,
}

-- whenAllCtlBlock.
pub record ControlBlock : Type 0 where
  pub count : ℕ
  pub caller_coro : ℕ

-- whenAllImpl's block and its tuple of results.
pub record Gathering (V : Type 0) : Type 0 where
  pub control : ControlBlock
  pub result : List V

-- whenAllHelper behind the await of its task: `none` is std::noop_coroutine.
unfoldable pub helper_return : ControlBlock → ControlBlock × Option ℕ
helper_return c =
    let left = size_sub c.count 1 in
    (record c { count = left }, (if left == 0 then some c.caller_coro else none))

-- The end of the helper for the task with a number, when the task gives a value; with the coroutine
-- that it returns.
unfoldable pub helper : {V : Type 0} → ℕ → V → Gathering V → Gathering V × Option ℕ
unfolding helper_return
helper i v g =
    let (c, coro) = helper_return g.control in
    (record { control = c; result = set g.result i v }, coro)

-- The helpers end one after the other: what they leave, and what they return.
unfoldable pub helpers : {V : Type 0} → List (ℕ × V) → Gathering V → Gathering V × List (Option ℕ)
unfolding helper
helpers [] g = (g, [])
helpers ((i, v) ∷ ends) g =
    let (g', coro) = helper i v g in let (g'', coros) = helpers ends g' in (g'', coro ∷ coros)

-- A helper as whenAllImpl starts it: detached.
unfoldable pub helper_promise : ℕ → Promise (Unit {0})
unfolding detach
helper_promise self = (detach (record { self_coro = some self }) new_promise).1.0

-- What runs after the end of a helper that returns a coroutine.
unfoldable pub after_helper : ℕ → Option ℕ → Next
unfolding helper_promise return_coro final_suspend return_prev
after_helper self coro = return_prev (final_suspend (return_coro coro (helper_promise self)))

-- whenAllImpl before its await, for as many tasks as there are initial values.
unfoldable pub gathering : {V : Type 0} → ℕ → ℕ → List V → Gathering V
unfolding get_self
gathering n caller initial = record {
  control = record { count = n; caller_coro = (get_self caller).0 };
  result = initial;
}

-- addTask of the loop for each coroutine, and what its runAll does with all of them: the ends.
abbrev pub RunAll : Type 0 → Type 0
RunAll V = List ℕ → List (ℕ × V)

-- whenAllAwaiter::await_suspend: what ended, and what runs next.
unfoldable pub await_all_tasks : {V : Type 0} → RunAll V → List ℕ → ℕ → List (ℕ × V) × Next
await_all_tasks run_all task_coros caller = (run_all task_coros, transfers caller)

-- whenAllImpl in the coroutine `self`: what it returns, the block at its end, and what runs after
-- the await.
unfoldable pub when_all :
    {V : Type 0} → RunAll V → List ℕ → ℕ → List V → List V × ControlBlock × Next
unfolding await_all_tasks
when_all run_all task_coros self initial =
    let (ends, next) = await_all_tasks run_all task_coros self in
    let g = (helpers ends (gathering (length initial) self initial)).0 in
    (g.result, g.control, next)
