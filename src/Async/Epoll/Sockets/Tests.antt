-- ===== src/Async/Epoll/Sockets/Tests.antt =====
-- A watched socket on a concrete run.
use coro_iomultiplex.Prelude.{
  ℕ, ◌≡◌, refl, ap, get_elem?, arith, List, [], ◌∷◌, ◌++◌, some, Bool, true, false, ◌==◌, ◌||◌, not,
  set, length,
}
use coro_iomultiplex.Async.Pool.{
  Pool, at_queue, bound_to, push_back, add_task, runs, run_tasks, contains, erase_if,
}
use coro_iomultiplex.Async.Pool.Crowds.{
  bindings, bound_to-old, bindings-InRange, length-bindings, full,
}
use coro_iomultiplex.Async.Pool.Clean.{clean_tasks-Cleaned}
use coro_iomultiplex.Async.Pool.History.{World, IsSafe}
use coro_iomultiplex.Async.Epoll.Sockets.{
  is_held, Scene, cleaned, EndsLast, HandlersEndLast, Reach, here, next, accepts, reports, takes,
  shares, adds, cleans,
}
use coro_iomultiplex.Async.Epoll.Sockets.Ends.{run_tasks-not_stale}
use coro_iomultiplex.Async.Epoll.Sockets.Stale.{run_tasks-front, taken-stale}

-- One thread, and as many bindings as the cleaner waits for.
abbrev crowd : List (ℕ × ℕ) → List ℕ → Pool
crowd b q = record { queues = q ∷ []; current = at_queue 0; binding = b }

abbrev crowded : Pool
crowded = crowd (bindings 10000) []

abbrev calm : World
calm = record { pool = crowded; destroyed = [] }

calm-IsSafe : IsSafe calm
unfolding contains
calm-IsSafe = record {
  valid = record { in_place = (tt, tt); in_range = bindings-InRange 10000; ready = omega arith };
  unbound = λ u h. absurd (ground arith);
}

-- A task that is bound goes to the queue.
crowd-add_task :
    (b : List (ℕ × ℕ)) (q : List ℕ) (t : ℕ)
    → bound_to t b ≡ some 0
    → add_task (crowd b q) t ≡ some (crowd b (q ++ (t ∷ [])))
unfolding add_task push_back bound_to
crowd-add_task b q t e = rw e refl

-- The handler 3 and its responder 7 are done.
abbrev both : ℕ → Bool
both t = (t == 3) || (t == 7)

abbrev serving : List (ℕ × ℕ) → Scene
serving b = record {
  world = record { pool = crowd b (7 ∷ (5 ∷ [])); destroyed = [] };
  held = (3, 7) ∷ ((3, 3) ∷ []);
}

-- The handler is added for an event and taken; it makes the responder; another task is added.
calm-serving :
    (b : List (ℕ × ℕ))
    → bound_to 3 b ≡ some 0
    → bound_to 5 b ≡ some 0
    → bound_to 7 b ≡ some 0
    → (r : Reach
        (record { world = record { pool = crowd b []; destroyed = [] }; held = [] })
        (serving b))
      × HandlersEndLast r
unfolding run_tasks contains is_held
calm-serving b e3 e5 e7 = (
  next
      (next
        (next
          (next (next here (accepts 3 refl))
            (reports 3 3 (crowd b (3 ∷ [])) refl refl (crowd-add_task b [] 3 e3)))
          (takes (λ t. false) 0 3 (crowd b []) true refl))
        (shares 3 7 (crowd b (7 ∷ [])) refl refl refl (crowd-add_task b [] 7 e7)))
      (adds 5 (crowd b (7 ∷ (5 ∷ []))) refl (crowd-add_task b (7 ∷ []) 5 e5)),
  (((((tt, tt), tt), tt), tt), tt),
)

both-EndsLast : (b : List (ℕ × ℕ)) → EndsLast both (serving b)
unfolding is_held
both-EndsLast b h r held alive d = ground arith

abbrev swept : Pool
swept = (cleaned both (serving (bindings 10000)).world).pool

swept-queues : swept.queues ≡ (5 ∷ []) ∷ []
unfolding erase_if
swept-queues =
    (clean_tasks-Cleaned both (serving (bindings 10000)).world.pool
      (record {
        in_place =
            ((bound_to-old 10000 7 (omega arith), (bound_to-old 10000 5 (omega arith), tt)), tt);
        in_range = bindings-InRange 10000;
        ready = omega arith;
      })
      (full (length (bindings 10000)) (length-bindings 10000))).queues

front :
    (p : Pool)
    → p.queues ≡ (5 ∷ []) ∷ []
    → run_tasks (λ t. false) p 0 ≡ runs (record p { queues = set p.queues 0 [] }) 5 true
front p e = run_tasks-front (λ t. false) p 0 5 [] (ap (λ qs. get_elem? qs 0) e)

-- The cleaner destroys the handler with its responder, and then a thread takes the other task.
run_tasks-not_stale_example :
    contains 5 (cleaned both (serving (bindings 10000)).world).destroyed ≡ false
run_tasks-not_stale_example =
    let (r, lasts) =
      calm-serving (bindings 10000) (bound_to-old 10000 3 (omega arith))
        (bound_to-old 10000 5 (omega arith)) (bound_to-old 10000 7 (omega arith)) in
    run_tasks-not_stale {w = calm}
      {s = record (serving (bindings 10000)) {
        world = cleaned both (serving (bindings 10000)).world;
      }}
      (λ t. false) 0 5 (record swept { queues = set swept.queues 0 [] }) true calm-IsSafe
      (next r (cleans both)) (lasts, both-EndsLast (bindings 10000)) (front swept swept-queues)

-- Only the handler is done.
abbrev handler : ℕ → Bool
handler t = t == 3

taken-stale_example :
    (u : Scene) × (i : ℕ) × (p : Pool) × Reach
      (record (serving (bindings 10000)) {
        world = cleaned handler (serving (bindings 10000)).world;
      })
      u
    × (contains 3 u.world.destroyed ≡ true)
    × ((still : ℕ → Bool) → run_tasks still u.world.pool i ≡ runs p 3 (not (still 3)))
unfolding contains is_held
taken-stale_example =
    taken-stale handler (serving (bindings 10000)) 3 7 0
      (record {
        valid = record {
          in_place =
              ((bound_to-old 10000 7 (omega arith), (bound_to-old 10000 5 (omega arith), tt)), tt);
          in_range = bindings-InRange 10000;
          ready = omega arith;
        };
        unbound = λ u h. absurd (ground arith);
      })
      refl refl refl refl (bound_to-old 10000 3 (omega arith))
      (full (length (bindings 10000)) (length-bindings 10000))
