-- ===== src/Async/Tasks.antt =====
-- The promises and awaiters of include/async/Tasks.hpp. A coroutine is the number of its handle,
-- an exception a number too; what a coroutine's own body does is not modelled here.
pub mod Chain
pub mod Yields
pub mod Tests
use coro_iomultiplex.Prelude.{ℕ, Bool, true, false, ◌&&◌, not, Option, none, some, if◌then◌else◌}

-- promiseType<T>: promiseBase's fields, and the value.
pub record Promise (T : Type 0) : Type 0 where
  pub return_exception : Option ℕ
  pub detached : Bool
  pub prev_coro : Option ℕ
  pub return_value : Option T

abbrev pub new_promise : {T : Type 0} → Promise T
new_promise = record {
  return_exception = none;
  detached = false;
  prev_coro = none;
  return_value = none;
}

-- What runs next: a coroutine, or the one that called `resume` (std::noop_coroutine).
pub data Next : Type 0 where
  transfers : ℕ → Next
  noop : Next

-- returnPrevAwaiter.
pub record ReturnPrev : Type 0 where
  pub ended : Bool
  pub detached : Bool
  pub prev_coro : Option ℕ

-- returnPrevAwaiter::await_suspend.
unfoldable pub return_prev : ReturnPrev → Next
return_prev a = if a.detached && a.ended then noop else elim a.prev_coro [
  | some prev ↦ (if not a.detached then transfers prev else noop)
  | none ↦ noop
]

-- promiseBase::final_suspend.
unfoldable pub final_suspend : {T : Type 0} → Promise T → ReturnPrev
final_suspend p = record { ended = true; detached = p.detached; prev_coro = p.prev_coro }

-- yieldPromiseType::yield_value: the promise with the value, and the awaiter.
unfoldable pub yield_value : {T : Type 0} → T → Promise T → Promise T × ReturnPrev
yield_value v p = (
  record p { return_value = some v },
  record { ended = false; detached = p.detached; prev_coro = p.prev_coro },
)

-- promiseType::return_value.
unfoldable pub set_value : {T : Type 0} → T → Promise T → Promise T
set_value v p = record p { return_value = some v }

-- What unhandled_exception does: it rethrows out of the coroutine, which is noexcept and ends the
-- process, or it keeps the exception.
pub data Unhandled (T : Type 0) : Type 0 where
  terminates : ℕ → Unhandled T
  keeps : Promise T → Unhandled T

-- promiseBase::unhandled_exception.
unfoldable pub unhandled_exception : {T : Type 0} → ℕ → Promise T → Unhandled T
unhandled_exception e p =
    if p.detached then terminates e else keeps (record p { return_exception = some e })

-- What getValue gives: it throws, it returns the value, or the value was never set.
pub data Got (T : Type 0) : Type 0 where
  throws : ℕ → Got T
  gives : Option T → Got T

-- promiseType::getValue, which taskAwaiter::await_resume passes on.
unfoldable pub get_value : {T : Type 0} → Promise T → Got T
get_value p = elim p.return_exception [ some e ↦ throws e | none ↦ gives p.return_value ]

-- taskAwaiter::await_suspend, on the promise of the task `self` that `caller` awaits.
unfoldable pub await_task : {T : Type 0} → ℕ → ℕ → Promise T → Promise T × Next
await_task self caller p = (record p { prev_coro = some caller }, transfers self)

-- Task: its handle.
pub record Task (T : Type 0) : Type 0 where
  pub self_coro : Option ℕ

-- Task::detach: the handle goes to the caller, and the promise is marked.
unfoldable pub detach : {T : Type 0} → Task T → Promise T → Task T × (Promise T × Option ℕ)
detach t p = (record { self_coro = none }, (record p { detached = true }, t.self_coro))

-- Task::resume; `none` throws "Task is empty".
unfoldable pub resume : {T : Type 0} → Task T → Option ℕ
resume t = t.self_coro

-- How a coroutine's body ends.
pub data Ending (T : Type 0) : Type 0 where
  returns : T → Ending T
  raises : ℕ → Ending T

-- The end of a coroutine, as the compiler composes it: `co_return`, or unhandled_exception and
-- then final_suspend. `none` ends the process.
unfoldable pub finish : {T : Type 0} → Ending T → Promise T → Option (Promise T × Next)
unfolding set_value unhandled_exception return_prev final_suspend
finish (returns v) p = some (set_value v p, return_prev (final_suspend (set_value v p)))
finish (raises e) p = elim (unhandled_exception e p) [
  | terminates e' ↦ none
  | keeps p' ↦ some (p', return_prev (final_suspend p'))
]

-- getSelfAwaiter::await_suspend: the handle that it keeps, and whether the caller stays suspended.
unfoldable pub get_self : ℕ → ℕ × Bool
get_self caller = (caller, false)

-- retPrevPromiseType::return_value; `none` is std::noop_coroutine.
unfoldable pub return_coro : {T : Type 0} → Option ℕ → Promise T → Promise T
return_coro coro p = record p { prev_coro = coro }

-- yieldPromiseType: its `ended` flag, and the rest of the promise.
pub record Yielding (T : Type 0) : Type 0 where
  pub promise : Promise T
  pub ended : Bool

-- yieldPromiseType::return_value.
unfoldable pub return_last : {T : Type 0} → T → Yielding T → Yielding T
unfolding set_value
return_last v y = record { promise = set_value v y.promise; ended = true }
