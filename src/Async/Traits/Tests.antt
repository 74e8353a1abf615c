-- ===== src/Async/Traits/Tests.antt =====
-- The traits of include/async/Traits.hpp on the awaitables of the repository.
use coro_iomultiplex.Prelude.{ℕ, ◌==◌, ◌≡◌, refl, true, false, if◌then◌else◌, [], ◌∷◌, some}
use coro_iomultiplex.Async.Traits.{
  Ty, void, bool, arithmetic, handle, non_void_helper, object, Class, Classes, no_members, awaiter,
  awaitable, ret_type, non_void_ret_type, can_hold, place_type, when_all_types,
}
use coro_iomultiplex.Async.Traits.CoAwait.{co_await_type}

-- A class with the three members of an awaiter.
abbrev awaits : Ty → Ty → Class
awaits suspended resumed = record no_members {
  await_ready = some bool;
  await_suspend = some suspended;
  await_resume = some resumed;
}

-- Task<T>, which converts to a handle; its awaiter is a class of its own.
abbrev task_class : ℕ → Class
task_class awaiter_class = record no_members {
  co_await = some (object awaiter_class);
  to_handle = true;
}

-- 0: Task<double>, 1: its taskAwaiter, 2: Task<void>, 3: its taskAwaiter, 4: scheduleAwaiter,
-- 5: recvAwaiter, 6: timerAwaiter.
abbrev repository : Classes
repository n =
    if n == 0
    then task_class 1
    else if n == 1
    then awaits handle arithmetic
    else if n == 2
    then task_class 3
    else if n == 3
    then awaits handle void
    else if n == 4
    then awaits void void
    else if n == 5
    then awaits bool (object 7)
    else if n == 6
    then awaits handle void
    else no_members

-- The scheduler of the pool and the awaiters of the ring are refused, and co_await takes them.
schedule_refused : awaitable repository (object 4) ≡ false
unfolding awaitable awaiter
schedule_refused = refl

schedule_awaited : co_await_type repository (object 4) ≡ some void
unfolding co_await_type
schedule_awaited = refl

recv_refused : awaitable repository (object 5) ≡ false
unfolding awaitable awaiter
recv_refused = refl

gathered :
    when_all_types repository (object 0 ∷ (object 2 ∷ []))
    ≡ some (arithmetic ∷ (non_void_helper ∷ []))
unfolding when_all_types place_type can_hold non_void_ret_type ret_type awaitable awaiter
gathered = refl
