-- ===== src/Async/Epoll/Sockets/Ends.antt =====
-- Whether a destroyed coroutine is resumed for an event.
use coro_iomultiplex.Prelude.{ℕ, ◌≡◌, refl, [], arith, Bool, true, false, inl, inr, Bool-cases}
use coro_iomultiplex.Async.Pool.{Pool, runs, run_tasks, contains}
use coro_iomultiplex.Async.Pool.History.{
  World, IsSafe, contains-append, clean_tasks-few, Step-IsSafe, run_tasks-not_destroyed,
}
use coro_iomultiplex.Async.Pool.History
use coro_iomultiplex.Async.Epoll.Sockets.{
  HandlersEndLast, StepEndsLast, is_held, Scene, with_pool, Step, accepts, shares, reports, adds,
  takes, cleans, Reach, here, next,
}
use coro_iomultiplex.Async.Epoll.Sockets.Watched.{
  IsWatched, added-IsKnown, added-IsWatched, held-IsWatched, taken-IsWatched,
}
use coro_iomultiplex.Async.Epoll.Sockets.Rounds.{cleaned-IsWatched}

start-IsWatched : (w : World) → IsSafe w → IsWatched (record { world = w; held = [] })
unfolding is_held
start-IsWatched w safe = record {
  safe = safe;
  closed = λ h r held. absurd (ground arith);
  known = λ h r held. absurd (ground arith);
}

-- A socket that is open has a handler that is not destroyed.
alive-handler :
    (s : Scene) (h r : ℕ)
    → IsWatched s
    → is_held h r s.held ≡ true
    → contains r s.world.destroyed ≡ false
    → contains h s.world.destroyed ≡ false
alive-handler s h r i held alive = elim (Bool-cases (contains h s.world.destroyed)) [
  | inr e ↦ e
  | inl e ↦ cc (i.closed h r held e, alive)
]

Step-IsWatched : {s u : Scene} → (st : Step s u) → StepEndsLast st → IsWatched s → IsWatched u
Step-IsWatched {s} (accepts t new) last i = held-IsWatched s t t new (inl refl) i
Step-IsWatched {s} (shares h r p own alive new e) last i =
    held-IsWatched (record s { world = with_pool s.world p }) h r alive
      (inr (added-IsKnown s.world r p i.safe e)) (added-IsWatched s r p new e i)
Step-IsWatched {s} (reports h r p held alive e) last i =
    added-IsWatched s h p (alive-handler s h r i held alive) e i
Step-IsWatched {s} (adds t p new e) last i = added-IsWatched s t p new e i
Step-IsWatched {s} (takes done k t p resumed e) last i = taken-IsWatched s done k t p resumed e i
Step-IsWatched {s} (cleans done) last i = cleaned-IsWatched done s last i

Reach-IsWatched : {s u : Scene} (r : Reach s u) → HandlersEndLast r → IsWatched s → IsWatched u
Reach-IsWatched here lasts i = i
Reach-IsWatched (next r st) lasts i = Step-IsWatched st lasts.1 (Reach-IsWatched r lasts.0 i)

-- From a safe pool on, without sockets, over any steps: sockets come with their handlers, handlers
-- share them with responders, any event adds the handler of a socket that some coroutine holds still,
-- coroutines that are not destroyed are added, threads take tasks, and the cleaner makes rounds. Where
-- in each round every coroutine that holds a socket, and is not destroyed, is done if the handler of
-- the socket is, no thread takes a task that was destroyed.
pub run_tasks-not_stale :
    {w : World} {s : Scene} (done : ℕ → Bool) (i t : ℕ) (p : Pool) (resumed : Bool)
    → IsSafe w
    → (r : Reach (record { world = w; held = [] }) s) → HandlersEndLast r
    → run_tasks done s.world.pool i ≡ runs p t resumed
    → contains t s.world.destroyed ≡ false
run_tasks-not_stale {w} {s} done i t p resumed safe r lasts e =
    run_tasks-not_destroyed done i t p resumed
      (Reach-IsWatched r lasts (start-IsWatched w safe)).safe History.here e
