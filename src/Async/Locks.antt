-- ===== src/Async/Locks.antt =====
-- The locks of threadPool, include/async/Loop.hpp: where a thread can stand between two calls on a
-- mutex, which locks it holds there, and which one it takes next. cleanWorkMutex is shared.
pub mod Apart
pub mod Exclusion
pub mod Ranks
pub mod Progress
pub mod Writers
pub mod Tests
use coro_iomultiplex.Prelude.{
  ℕ, ◌≡◌, ◌==◌, List, [], ◌∷◌, ◌++◌, Bool, true, false, ◌&&◌, ◌||◌, not, Option, none, some,
}

-- The mutexes: cleanWorkMutex, bindingMutex, queueCounterMutex, queueListMutex, and that of a queue.
pub data Lock : Type 0 where
  clean_work binding queue_counter queue_list : Lock
  queue : ℕ → Lock

-- How it is locked: by std::shared_lock or by std::unique_lock.
pub data Mode : Type 0 where
  shared exclusive : Mode

pub record Hold : Type 0 where
  pub lock : Lock
  pub mode : Mode

-- Where a thread stands; in addTask, `some q` is a task that runTasks of queue `q` resumed, and
-- `none` a thread outside the pool. The names say what comes next.
pub data Place : Type 0 where
  outside : Place
  launch_start launch_binding launch_counter launch_list launch_emplace : Place
  launch_listed launch_counted launch_bound : Place
  launched : ℕ → Place
  add_start add_binding add_find add_counter add_next add_bound : Option ℕ → Place
  add_queue add_push : Option ℕ → ℕ → Place
  add_notify : Option ℕ → Place
  run_start run_queue run_look run_empty run_asleep run_woken run_try run_take running : ℕ → Place
  clean_start clean_look clean_end clean_asleep : Place
  clean_queue clean_erase : ℕ → Place

abbrev pub clean_shared : Hold
clean_shared = record { lock = clean_work; mode = shared }

abbrev pub owned : Lock → Hold
owned l = record { lock = l; mode = exclusive }

-- What the caller of addTask holds: runTasks holds cleanWorkMutex while the task runs.
unfoldable pub held_by : Option ℕ → List Hold
held_by none = []
held_by (some q) = clean_shared ∷ []

-- What a thread holds at a place.
unfoldable pub holds : Place → List Hold
unfolding held_by
holds outside = []
holds launch_start = []
holds launch_binding = clean_shared ∷ []
holds launch_counter = owned binding ∷ (clean_shared ∷ [])
holds launch_list = owned queue_counter ∷ (owned binding ∷ (clean_shared ∷ []))
holds launch_emplace =
    owned queue_list ∷ (owned queue_counter ∷ (owned binding ∷ (clean_shared ∷ [])))
holds launch_listed = owned queue_counter ∷ (owned binding ∷ (clean_shared ∷ []))
holds launch_counted = owned binding ∷ (clean_shared ∷ [])
holds launch_bound = clean_shared ∷ []
holds (launched q) = []
holds (add_start c) = held_by c
holds (add_binding c) = clean_shared ∷ held_by c
holds (add_find c) = owned binding ∷ (clean_shared ∷ held_by c)
holds (add_counter c) = owned binding ∷ (clean_shared ∷ held_by c)
holds (add_next c) = owned queue_counter ∷ (owned binding ∷ (clean_shared ∷ held_by c))
holds (add_bound c) = owned binding ∷ (clean_shared ∷ held_by c)
holds (add_queue c q) = clean_shared ∷ held_by c
holds (add_push c q) = owned (queue q) ∷ (clean_shared ∷ held_by c)
holds (add_notify c) = clean_shared ∷ held_by c
holds (run_start q) = []
holds (run_queue q) = clean_shared ∷ []
holds (run_look q) = owned (queue q) ∷ (clean_shared ∷ [])
holds (run_empty q) = owned (queue q) ∷ []
holds (run_asleep q) = []
holds (run_woken q) = []
holds (run_try q) = owned (queue q) ∷ []
holds (run_take q) = owned (queue q) ∷ (clean_shared ∷ [])
holds (running q) = clean_shared ∷ []
holds clean_start = []
holds clean_look = owned clean_work ∷ []
holds clean_end = owned clean_work ∷ []
holds clean_asleep = []
holds (clean_queue q) = owned clean_work ∷ []
holds (clean_erase q) = owned (queue q) ∷ (owned clean_work ∷ [])

-- A thread's next move, with the lock that it takes, if it does.
pub data Move : Place → Option Hold → Place → Type 0 where
  calls_add : Move outside none (add_start none)
  calls_enter : Move outside none clean_start
  launch_takes_clean : Move launch_start (some clean_shared) launch_binding
  launch_takes_binding : Move launch_binding (some (owned binding)) launch_counter
  launch_takes_counter : Move launch_counter (some (owned queue_counter)) launch_list
  launch_takes_list : Move launch_list (some (owned queue_list)) launch_emplace
  launch_gives_list : Move launch_emplace none launch_listed
  launch_gives_counter : Move launch_listed none launch_counted
  launch_gives_binding : Move launch_counted none launch_bound
  launch_gives_clean : (q : ℕ) → Move launch_bound none (launched q)
  latch_opens : (q : ℕ) → Move (launched q) none (run_start q)
  add_takes_clean : (c : Option ℕ) → Move (add_start c) (some clean_shared) (add_binding c)
  add_takes_binding : (c : Option ℕ) → Move (add_binding c) (some (owned binding)) (add_find c)
  add_finds : (c : Option ℕ) → Move (add_find c) none (add_bound c)
  add_misses : (c : Option ℕ) → Move (add_find c) none (add_counter c)
  add_takes_counter :
      (c : Option ℕ) → Move (add_counter c) (some (owned queue_counter)) (add_next c)
  add_gives_counter : (c : Option ℕ) → Move (add_next c) none (add_bound c)
  add_gives_binding : (c : Option ℕ) (q : ℕ) → Move (add_bound c) none (add_queue c q)
  add_takes_queue :
      (c : Option ℕ) (q : ℕ) → Move (add_queue c q) (some (owned (queue q))) (add_push c q)
  add_gives_queue : (c : Option ℕ) (q : ℕ) → Move (add_push c q) none (add_notify c)
  add_returns_outside : Move (add_notify none) none outside
  add_returns : (q : ℕ) → Move (add_notify (some q)) none (running q)
  run_takes_clean : (q : ℕ) → Move (run_start q) (some clean_shared) (run_queue q)
  run_takes_queue : (q : ℕ) → Move (run_queue q) (some (owned (queue q))) (run_look q)
  run_finds : (q : ℕ) → Move (run_look q) none (run_take q)
  run_gives_clean : (q : ℕ) → Move (run_look q) none (run_empty q)
  run_waits : (q : ℕ) → Move (run_empty q) none (run_asleep q)
  run_notified : (q : ℕ) → Move (run_asleep q) none (run_woken q)
  run_retakes_queue : (q : ℕ) → Move (run_woken q) (some (owned (queue q))) (run_try q)
  run_waits_again : (q : ℕ) → Move (run_try q) none (run_asleep q)
  run_tries : (q : ℕ) → Move (run_try q) (some clean_shared) (run_take q)
  run_gives_up : (q : ℕ) → Move (run_try q) none (run_start q)
  run_resumes : (q : ℕ) → Move (run_take q) none (running q)
  task_adds : (q : ℕ) → Move (running q) none (add_start (some q))
  task_suspends : (q : ℕ) → Move (running q) none (run_start q)
  clean_takes : Move clean_start (some (owned clean_work)) clean_look
  clean_has_few : Move clean_look none clean_asleep
  clean_has_none : Move clean_look none clean_end
  clean_begins : (q : ℕ) → Move clean_look none (clean_queue q)
  clean_takes_queue : (q : ℕ) → Move (clean_queue q) (some (owned (queue q))) (clean_erase q)
  clean_continues : (q r : ℕ) → Move (clean_erase q) none (clean_queue r)
  clean_finishes : (q : ℕ) → Move (clean_erase q) none clean_end
  clean_gives : Move clean_end none clean_asleep
  clean_wakes : Move clean_asleep none clean_start

unfoldable pub same_lock : Lock → Lock → Bool
same_lock clean_work clean_work = true
same_lock binding binding = true
same_lock queue_counter queue_counter = true
same_lock queue_list queue_list = true
same_lock (queue q) (queue r) = q == r
same_lock _ _ = false

-- Two holds of one lock are compatible when both are shared.
unfoldable pub compatible : Hold → Hold → Bool
unfolding same_lock
compatible h k = not (same_lock h.lock k.lock) || elim h.mode [
  | exclusive ↦ false
  | shared ↦ elim k.mode [ exclusive ↦ false | shared ↦ true ]
]

-- A hold goes with all of the others.
unfoldable pub goes_with : Hold → List Hold → Bool
goes_with h [] = true
goes_with h (k ∷ ks) = compatible h k && goes_with h ks

-- All of the holds go with all of the others.
unfoldable pub all_go_with : List Hold → List Hold → Bool
all_go_with [] ks = true
all_go_with (h ∷ hs) ks = goes_with h ks && all_go_with hs ks

-- Whether a thread stands where it waits to own cleanWorkMutex.
unfoldable pub is_writer : Place → Bool
is_writer clean_start = true
is_writer _ = false

unfoldable pub is_shared : Hold → Bool
is_shared h = elim h.mode [ shared ↦ true | exclusive ↦ false ]

-- Whether a thread that stands at the place lets another take the lock; `prefers` is whether a
-- shared mutex holds new readers back while a writer waits.
unfoldable pub lets : Bool → Hold → Place → Bool
lets prefers h p = goes_with h (holds p) && not (prefers && (is_shared h && is_writer p))

-- The lock can be taken now.
abbrev pub IsFree : Bool → List Place → Hold → Type 0
IsFree prefers [] h = Unit
IsFree prefers (p ∷ ts) h = (lets prefers h p ≡ true) × IsFree prefers ts h

abbrev pub IsAllowed : Bool → List Place → Option Hold → Type 0
IsAllowed prefers ts none = Unit
IsAllowed prefers ts (some h) = IsFree prefers ts h

-- One thread moves.
pub data Step (prefers : Bool) (ts ts' : List Place) : Type 0 where
  turn :
      (before after : List Place) (p p' : Place) (need : Option Hold)
      → ts ≡ before ++ (p ∷ after)
      → ts' ≡ before ++ (p' ∷ after)
      → Move p need p'
      → IsAllowed prefers ts need
      → Step prefers ts ts'

-- Any number of moves.
pub data Reach (prefers : Bool) (ts : List Place) : List Place → Type 0 where
  start : Reach prefers ts ts
  then_step : {us vs : List Place} → Reach prefers ts us → Step prefers us vs → Reach prefers ts vs
