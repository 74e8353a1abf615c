-- ===== src/Async/Locks/Tests.antt =====
-- The locks of include/async/Loop.hpp with concrete threads.
use coro_iomultiplex.Prelude.{◌≡◌, refl, All, List, [], ◌∷◌, true, false, none, some}
use coro_iomultiplex.Async.Locks.{
  Place, outside, add_start, run_start, clean_start, clean_asleep, clean_look, goes_with, holds,
  Move, lets, Step, turn, Reach, start, then_step,
}
use coro_iomultiplex.Async.Locks.Apart.{AreApart}
use coro_iomultiplex.Async.Locks.Exclusion.{is_cleaning, Rests, Reach-alone}
use coro_iomultiplex.Async.Locks.Progress.{CanGo, is_idle-CanGo}
use coro_iomultiplex.Async.Locks.Ranks.{is_idle}
use coro_iomultiplex.Async.Locks.Writers.{blocked, blocked-reached}

-- A task that adds another, the cleaner, and a thread of the pool.
abbrev threads : List Place
threads = add_start (some 0) ∷ (clean_start ∷ (run_start 1 ∷ []))

is_idle-CanGo_example : CanGo threads
unfolding is_idle
is_idle-CanGo_example =
    is_idle-CanGo threads [] (add_start (some 0)) (clean_start ∷ (run_start 1 ∷ [])) refl refl

blocked-reached_example :
    Reach true (run_start 0 ∷ (clean_asleep ∷ (run_start 1 ∷ []))) (blocked 0 (1 ∷ []))
    × ((ts : List Place) → Step true (blocked 0 (1 ∷ [])) ts → ⊥)
blocked-reached_example = blocked-reached 0 (1 ∷ [])

abbrev at_first : List Place
at_first = outside ∷ (run_start 0 ∷ [])

cleans : Reach false at_first (clean_look ∷ (run_start 0 ∷ []))
unfolding lets goes_with holds
cleans =
    then_step
      (then_step start
        (turn [] (run_start 0 ∷ []) outside clean_start none refl refl Move.calls_enter tt))
      (turn [] (run_start 0 ∷ []) clean_start clean_look _ refl refl Move.clean_takes
        (refl, (refl, tt)))

Reach-alone_example :
    AreApart (clean_look ∷ (run_start 0 ∷ []))
    × (is_cleaning clean_look ≡ true → All Rests (run_start 0 ∷ []))
unfolding holds
Reach-alone_example =
    Reach-alone false at_first [] clean_look (run_start 0 ∷ []) (refl, (refl, tt)) cleans
