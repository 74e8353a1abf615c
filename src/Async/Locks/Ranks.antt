-- ===== src/Async/Locks/Ranks.antt =====
-- The order of the locks of include/async/Loop.hpp, and the moves of a thread that is not idle.
use coro_iomultiplex.Prelude.{
  ℕ, ◌<◌, ◌≡◌, [], Bool, true, false, Option, none, some, Bool-cases, inl, inr, arith,
}
use coro_iomultiplex.Async.Locks.{
  clean_work, binding, queue_counter, queue_list, queue, shared, exclusive, Hold, Place, outside,
  launch_start, launch_binding, launch_counter, launch_list, launch_emplace, launch_listed,
  launch_counted, launch_bound, launched, add_start, add_binding, add_find, add_counter, add_next,
  add_bound, add_queue, add_push, add_notify, run_start, run_queue, run_look, run_empty, run_asleep,
  run_woken, run_try, run_take, running, clean_start, clean_look, clean_end, clean_asleep,
  clean_queue, clean_erase, clean_shared, owned, held_by, holds, Move, same_lock, compatible,
  goes_with,
}

-- The thread is outside the pool, or waits for the latch, or sleeps.
unfoldable pub is_idle : Place → Bool
is_idle outside = true
is_idle (launched q) = true
is_idle (run_asleep q) = true
is_idle clean_asleep = true
is_idle _ = false

-- The lock that a thread waits for at a place.
unfoldable pub wants : Place → Option Hold
wants launch_start = some clean_shared
wants launch_binding = some (owned binding)
wants launch_counter = some (owned queue_counter)
wants launch_list = some (owned queue_list)
wants (add_start c) = some clean_shared
wants (add_binding c) = some (owned binding)
wants (add_counter c) = some (owned queue_counter)
wants (add_queue c q) = some (owned (queue q))
wants (run_start q) = some clean_shared
wants (run_queue q) = some (owned (queue q))
wants (run_woken q) = some (owned (queue q))
wants clean_start = some (owned clean_work)
wants (clean_queue q) = some (owned (queue q))
wants _ = none

-- The order of the locks: what a thread waits for is lower than what it holds.
unfoldable pub rank : Hold → ℕ
rank h = elim h.lock [
  | queue q ↦ 0
  | queue_list ↦ 1
  | queue_counter ↦ 2
  | binding ↦ 3
  | clean_work ↦ elim h.mode [ shared ↦ 4 | exclusive ↦ 5 ]
]

-- Each thread that is not idle has a move that takes no lock but the one that it waits for.
pub next : (p : Place) → is_idle p ≡ false → (p' : Place) × Move p (wants p) p'
unfolding is_idle wants
next outside h = absurd (ground arith)
next (launched q) h = absurd (ground arith)
next (run_asleep q) h = absurd (ground arith)
next clean_asleep h = absurd (ground arith)
next (add_notify none) h = (outside, Move.add_returns_outside)
next (add_notify (some q)) h = (running q, Move.add_returns q)
next (add_bound c) h = (add_queue c 0, Move.add_gives_binding c 0)
next launch_start h = (launch_binding, Move.launch_takes_clean)
next launch_binding h = (launch_counter, Move.launch_takes_binding)
next launch_counter h = (launch_list, Move.launch_takes_counter)
next launch_list h = (launch_emplace, Move.launch_takes_list)
next launch_emplace h = (launch_listed, Move.launch_gives_list)
next launch_listed h = (launch_counted, Move.launch_gives_counter)
next launch_counted h = (launch_bound, Move.launch_gives_binding)
next launch_bound h = (launched 0, Move.launch_gives_clean 0)
next (add_start c) h = (add_binding c, Move.add_takes_clean c)
next (add_binding c) h = (add_find c, Move.add_takes_binding c)
next (add_find c) h = (add_bound c, Move.add_finds c)
next (add_counter c) h = (add_next c, Move.add_takes_counter c)
next (add_next c) h = (add_bound c, Move.add_gives_counter c)
next (add_queue c q) h = (add_push c q, Move.add_takes_queue c q)
next (add_push c q) h = (add_notify c, Move.add_gives_queue c q)
next (run_start q) h = (run_queue q, Move.run_takes_clean q)
next (run_queue q) h = (run_look q, Move.run_takes_queue q)
next (run_look q) h = (run_take q, Move.run_finds q)
next (run_empty q) h = (run_asleep q, Move.run_waits q)
next (run_woken q) h = (run_try q, Move.run_retakes_queue q)
next (run_try q) h = (run_start q, Move.run_gives_up q)
next (run_take q) h = (running q, Move.run_resumes q)
next (running q) h = (run_start q, Move.task_suspends q)
next clean_start h = (clean_look, Move.clean_takes)
next clean_look h = (clean_asleep, Move.clean_has_few)
next (clean_queue q) h = (clean_erase q, Move.clean_takes_queue q)
next (clean_erase q) h = (clean_end, Move.clean_finishes q)
next clean_end h = (clean_asleep, Move.clean_gives)

-- A thread whose hold stands in the way of another waits for a lower lock, if it waits.
pub rank-lt :
    (h : Hold) (p : Place) (k : Hold)
    → goes_with h (holds p) ≡ false
    → wants p ≡ some k
    → rank k < rank h
unfolding rank wants holds held_by goes_with compatible same_lock
rank-lt h launch_start k blocks w = ground arith
rank-lt h launch_binding k blocks w = ground arith
rank-lt h launch_counter k blocks w = ground arith
rank-lt h launch_list k blocks w = ground arith
rank-lt h (add_start none) k blocks w = ground arith
rank-lt h (add_start (some q)) k blocks w = ground arith
rank-lt h (add_binding none) k blocks w = ground arith
rank-lt h (add_binding (some q)) k blocks w = ground arith
rank-lt h (add_counter none) k blocks w = ground arith
rank-lt h (add_counter (some q)) k blocks w = ground arith
rank-lt h (add_queue none q) k blocks w = ground arith
rank-lt h (add_queue (some r) q) k blocks w = ground arith
rank-lt h (run_start q) k blocks w = ground arith
rank-lt h (run_queue q) k blocks w = ground arith
rank-lt h (run_woken q) k blocks w = ground arith
rank-lt h clean_start k blocks w = ground arith
rank-lt h (clean_queue q) k blocks w = ground arith
rank-lt h outside k blocks w = absurd (ground arith)
rank-lt h launch_emplace k blocks w = absurd (ground arith)
rank-lt h launch_listed k blocks w = absurd (ground arith)
rank-lt h launch_counted k blocks w = absurd (ground arith)
rank-lt h launch_bound k blocks w = absurd (ground arith)
rank-lt h (launched q) k blocks w = absurd (ground arith)
rank-lt h (add_find c) k blocks w = absurd (ground arith)
rank-lt h (add_next c) k blocks w = absurd (ground arith)
rank-lt h (add_bound c) k blocks w = absurd (ground arith)
rank-lt h (add_push c q) k blocks w = absurd (ground arith)
rank-lt h (add_notify c) k blocks w = absurd (ground arith)
rank-lt h (run_look q) k blocks w = absurd (ground arith)
rank-lt h (run_empty q) k blocks w = absurd (ground arith)
rank-lt h (run_asleep q) k blocks w = absurd (ground arith)
rank-lt h (run_try q) k blocks w = absurd (ground arith)
rank-lt h (run_take q) k blocks w = absurd (ground arith)
rank-lt h (running q) k blocks w = absurd (ground arith)
rank-lt h clean_look k blocks w = absurd (ground arith)
rank-lt h clean_end k blocks w = absurd (ground arith)
rank-lt h clean_asleep k blocks w = absurd (ground arith)
rank-lt h (clean_erase q) k blocks w = absurd (ground arith)

pub idle-holds : (p : Place) → is_idle p ≡ true → holds p ≡ []
unfolding is_idle holds
idle-holds p h = ground arith

pub is_idle-held : (k : Hold) (q : Place) → goes_with k (holds q) ≡ false → is_idle q ≡ false
unfolding goes_with
is_idle-held k q held = elim (Bool-cases (is_idle q)) [
  | inr busy ↦ busy
  | inl idle ↦ absurd (ground (arith, idle-holds q idle))
]
