-- ===== src/Async/Timers.antt =====
-- timerAwaiter of include/async/Timer.hpp, sleepUntil and sleepFor of src/async/Timer.cpp. A time is
-- the number of ticks since the epoch, and the clock is read when the code reads it.
use coro_iomultiplex.Prelude.{
  ℕ, ◌+◌, ◌≤◌, ◌≡◌, ltb, List, [], ◌∷◌, Bool, true, false, Option, none, some, arith,
}
use coro_iomultiplex.Async.Tasks.{Next, noop, get_self}

-- timerAwaiter.
pub record TimerAwaiter : Type 0 where
  pub callback_coro : Option ℕ
  pub time : ℕ

-- timerAwaiter::await_ready.
unfoldable pub timer_ready : TimerAwaiter → ℕ → Bool
timer_ready a now = ltb a.time now

-- timerAwaiter::await_suspend: the coroutine that it chose is entered nowhere.
unfoldable pub timer_suspend : TimerAwaiter → ℕ → Next
timer_suspend a coro = noop

-- How a sleep ends: it goes on and resumes what it was given, or it is suspended.
pub data Slept : Type 0 where
  resumed : List ℕ → Slept
  suspended : Next → Slept

-- sleepUntil in the coroutine `self`.
unfoldable pub sleep_until : ℕ → ℕ → ℕ → Option ℕ → Slept
unfolding timer_ready timer_suspend
sleep_until self now time coro =
    let a : TimerAwaiter = record { callback_coro = coro; time = time } in
    elim (timer_ready a now) [ true ↦ resumed [] | false ↦ suspended (timer_suspend a self) ]

-- sleepFor: `now` is read for the awaiter, and `later` by await_ready.
unfoldable pub sleep_for : ℕ → ℕ → ℕ → ℕ → Option ℕ → Slept
unfolding timer_ready timer_suspend get_self
sleep_for self now later duration coro =
    let a : TimerAwaiter = record {
      callback_coro = some (get_self self).0;
      time = now + duration;
    } in
    elim (timer_ready a later) [
      | true ↦ elim coro [ none ↦ resumed [] | some c ↦ resumed (c ∷ []) ]
      | false ↦ suspended (timer_suspend a self)
    ]

-- A sleep whose time has not passed when the clock is read resumes neither the coroutine that sleeps
-- nor the one that it was given.
pub sleep_for-suspended :
    (self now later duration : ℕ) (coro : Option ℕ)
    → later ≤ now + duration
    → (sleep_for self now later duration coro ≡ suspended noop)
      × (sleep_until self later (now + duration) coro ≡ suspended noop)
unfolding sleep_for sleep_until timer_ready timer_suspend
sleep_for-suspended self now later duration coro le = (ground arith, ground arith)
