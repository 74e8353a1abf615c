-- ===== src/Async/Locks/Writers.antt =====
-- The threads of include/async/Loop.hpp on a shared mutex that holds new readers back while a writer
-- waits.
use coro_iomultiplex.Prelude.{
  ℕ, ◌≡◌, refl, subst, All, List, [], ◌∷◌, map, true, Option, none, some, ◌⊎◌, inl, inr, arith,
}
use coro_iomultiplex.Async.Locks.{
  clean_work, Hold, Place, add_start, run_start, run_queue, run_look, run_take, running,
  clean_start, clean_asleep, clean_shared, owned, queue, held_by, holds, Move, same_lock,
  compatible, goes_with, is_writer, is_shared, lets, IsFree, IsAllowed, Step, turn, Reach, start,
  then_step,
}
use coro_iomultiplex.Async.Locks.Exclusion.{All-at}
use coro_iomultiplex.Async.Locks.Ranks.{wants}

-- A pool thread whose task calls addTask, the cleaner that waits to own cleanWorkMutex, and pool
-- threads that wait to share it.
abbrev pub blocked : ℕ → List ℕ → List Place
blocked q qs = add_start (some q) ∷ (clean_start ∷ map run_start qs)

-- A thread that waits for a lock has no move that does not take it.
needs-wants :
    (p : Place) (need : Option Hold) (p' : Place) (k : Hold)
    → Move p need p'
    → wants p ≡ some k
    → need ≡ some k
unfolding wants
needs-wants p need p' k Move.calls_add w = absurd (ground arith)
needs-wants p need p' k Move.calls_enter w = absurd (ground arith)
needs-wants p need p' k Move.launch_takes_clean w = w
needs-wants p need p' k Move.launch_takes_binding w = w
needs-wants p need p' k Move.launch_takes_counter w = w
needs-wants p need p' k Move.launch_takes_list w = w
needs-wants p need p' k Move.launch_gives_list w = absurd (ground arith)
needs-wants p need p' k Move.launch_gives_counter w = absurd (ground arith)
needs-wants p need p' k Move.launch_gives_binding w = absurd (ground arith)
needs-wants p need p' k (Move.launch_gives_clean q) w = absurd (ground arith)
needs-wants p need p' k (Move.latch_opens q) w = absurd (ground arith)
needs-wants p need p' k (Move.add_takes_clean c) w = w
needs-wants p need p' k (Move.add_takes_binding c) w = w
needs-wants p need p' k (Move.add_finds c) w = absurd (ground arith)
needs-wants p need p' k (Move.add_misses c) w = absurd (ground arith)
needs-wants p need p' k (Move.add_takes_counter c) w = w
needs-wants p need p' k (Move.add_gives_counter c) w = absurd (ground arith)
needs-wants p need p' k (Move.add_gives_binding c q) w = absurd (ground arith)
needs-wants p need p' k (Move.add_takes_queue c q) w = w
needs-wants p need p' k (Move.add_gives_queue c q) w = absurd (ground arith)
needs-wants p need p' k Move.add_returns_outside w = absurd (ground arith)
needs-wants p need p' k (Move.add_returns q) w = absurd (ground arith)
needs-wants p need p' k (Move.run_takes_clean q) w = w
needs-wants p need p' k (Move.run_takes_queue q) w = w
needs-wants p need p' k (Move.run_finds q) w = absurd (ground arith)
needs-wants p need p' k (Move.run_gives_clean q) w = absurd (ground arith)
needs-wants p need p' k (Move.run_waits q) w = absurd (ground arith)
needs-wants p need p' k (Move.run_notified q) w = absurd (ground arith)
needs-wants p need p' k (Move.run_retakes_queue q) w = w
needs-wants p need p' k (Move.run_waits_again q) w = absurd (ground arith)
needs-wants p need p' k (Move.run_tries q) w = absurd (ground arith)
needs-wants p need p' k (Move.run_gives_up q) w = absurd (ground arith)
needs-wants p need p' k (Move.run_resumes q) w = absurd (ground arith)
needs-wants p need p' k (Move.task_adds q) w = absurd (ground arith)
needs-wants p need p' k (Move.task_suspends q) w = absurd (ground arith)
needs-wants p need p' k Move.clean_takes w = w
needs-wants p need p' k Move.clean_has_few w = absurd (ground arith)
needs-wants p need p' k Move.clean_has_none w = absurd (ground arith)
needs-wants p need p' k (Move.clean_begins q) w = absurd (ground arith)
needs-wants p need p' k (Move.clean_takes_queue q) w = w
needs-wants p need p' k (Move.clean_continues q r) w = absurd (ground arith)
needs-wants p need p' k (Move.clean_finishes q) w = absurd (ground arith)
needs-wants p need p' k Move.clean_gives w = absurd (ground arith)
needs-wants p need p' k Move.clean_wakes w = absurd (ground arith)

-- The thread waits for cleanWorkMutex.
abbrev pub Waits : Place → Type 0
Waits p = (wants p ≡ some clean_shared) ⊎ (wants p ≡ some (owned clean_work))

runs-Waits : (qs : List ℕ) → All Waits (map run_start qs)
unfolding wants
runs-Waits [] = tt
runs-Waits (q ∷ qs) = (inl refl, runs-Waits qs)

blocked-Waits : (q : ℕ) (qs : List ℕ) → All Waits (blocked q qs)
unfolding wants
blocked-Waits q qs = (inl refl, (inr refl, runs-Waits qs))

reader_waits : (q : ℕ) (qs : List ℕ) → IsFree true (blocked q qs) clean_shared → ⊥
unfolding lets holds held_by goes_with compatible same_lock is_shared is_writer
reader_waits q qs free = absurd (ground (arith, free.1.0))

writer_waits : (q : ℕ) (qs : List ℕ) → IsFree true (blocked q qs) (owned clean_work) → ⊥
unfolding lets holds held_by goes_with compatible same_lock is_shared is_writer
writer_waits q qs free = absurd (ground (arith, free.0))

-- No thread can move.
blocked-ne_Step : (q : ℕ) (qs : List ℕ) (ts : List Place) → Step true (blocked q qs) ts → ⊥
blocked-ne_Step q qs ts (turn before after p p' need at at' m allowed) =
    let waits = All-at Waits before p after (subst (All Waits) at (blocked-Waits q qs)) in
    elim waits [
      | inl e ↦
          reader_waits q qs
            (subst (IsAllowed true (blocked q qs)) (needs-wants p need p' clean_shared m e) allowed)
      | inr e ↦ writer_waits q qs (
          subst (IsAllowed true (blocked q qs)) (needs-wants p need p' (owned clean_work) m e)
            allowed)
    ]

runs-IsFree : (qs : List ℕ) (h : Hold) → IsFree true (map run_start qs) h
unfolding lets holds goes_with is_writer
runs-IsFree [] h = tt
runs-IsFree (q ∷ qs) h = (ground arith, runs-IsFree qs h)

-- The first thread moves.
first_moves :
    {ts : List Place} (p p' : Place) (need : Option Hold) (rest : List Place)
    → Reach true ts (p ∷ rest)
    → Move p need p'
    → IsAllowed true (p ∷ rest) need
    → Reach true ts (p' ∷ rest)
first_moves p p' need rest r m allowed = then_step r (turn [] rest p p' need refl refl m allowed)

-- With a mutex that prefers writers the pool can block for good, with any number of threads: a task
-- that runs, and so shares cleanWorkMutex, calls addTask, which shares it again, when the cleaner
-- already waits to own it. No thread can move then.
pub blocked-reached :
    (q : ℕ) (qs : List ℕ)
    → Reach true (run_start q ∷ (clean_asleep ∷ map run_start qs)) (blocked q qs)
      × ((ts : List Place) → Step true (blocked q qs) ts → ⊥)
unfolding lets holds goes_with compatible same_lock is_writer is_shared
blocked-reached q qs =
    let rest : List Place = clean_asleep ∷ map run_start qs in
    let free = runs-IsFree qs in
    let r1 =
      first_moves (run_start q) (run_queue q) (some clean_shared) rest start
        (Move.run_takes_clean q) (refl, (refl, free clean_shared)) in
    let r2 =
      first_moves (run_queue q) (run_look q) (some (owned (queue q))) rest r1
        (Move.run_takes_queue q) (refl, (refl, free (owned (queue q)))) in
    let r3 = first_moves (run_look q) (run_take q) none rest r2 (Move.run_finds q) tt in
    let r4 = first_moves (run_take q) (running q) none rest r3 (Move.run_resumes q) tt in
    let r5 = first_moves (running q) (add_start (some q)) none rest r4 (Move.task_adds q) tt in
    (
      then_step r5 (
          turn (add_start (some q) ∷ []) (map run_start qs) clean_asleep clean_start none refl refl
            Move.clean_wakes tt),
      blocked-ne_Step q qs,
    )
