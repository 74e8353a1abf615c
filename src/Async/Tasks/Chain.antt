-- ===== src/Async/Tasks/Chain.antt =====
-- How the coroutines of include/async/Tasks.hpp hand control on when a task is awaited.
use coro_iomultiplex.Prelude.{ℕ, ◌≡◌, refl, false, none, some}
use coro_iomultiplex.Async.Tasks.{
  Promise, transfers, return_prev, final_suspend, set_value, unhandled_exception, Got, throws,
  gives, get_value, await_task, Ending, returns, raises, finish,
}

-- What the awaiting coroutine reads for an ending.
abbrev pub outcome_of : {T : Type 0} → Ending T → Got T
outcome_of (returns v) = gives (some v)
outcome_of (raises e) = throws e

-- A task that `caller` awaits and that nobody detached runs next; when it ends, `caller` is
-- resumed, and reads what the task returned or catches what it threw.
pub await_task-finish :
    {T : Type 0} (self caller : ℕ) (p : Promise T) (ending : Ending T)
    → p.detached ≡ false
    → p.return_exception ≡ none
    → ((await_task self caller p).1 ≡ transfers self)
      × ((p' : Promise T) × ((finish ending (await_task self caller p).0
              ≡ some (p', transfers caller))
            × (get_value p' ≡ outcome_of ending)))
unfolding await_task finish get_value set_value unhandled_exception return_prev final_suspend
await_task-finish self caller p (returns v) d x =
    (refl, (record p { prev_coro = some caller; return_value = some v }, (rw d refl, rw x refl)))
await_task-finish self caller p (raises e) d x =
    (refl, (record p { prev_coro = some caller; return_exception = some e }, (rw d refl, refl)))
