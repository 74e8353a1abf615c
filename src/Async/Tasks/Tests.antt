-- ===== src/Async/Tasks/Tests.antt =====
-- The coroutines of include/async/Tasks.hpp on concrete promises.
use coro_iomultiplex.Prelude.{ℕ, ◌≡◌, refl, some, [], ◌∷◌, true, false}
use coro_iomultiplex.Async.Tasks.{new_promise}
use coro_iomultiplex.Async.Tasks.Yields.{
  Generator, yields, returned, await_all, served, await_all-served,
}

-- A coroutine that yields 5 and returns 6, awaited by two others.
await_all-served_example :
    (g : Generator ℕ) × (await_all 2 (1 ∷ (3 ∷ [])) (record {
      body = yields (5 ∷ []) 6;
      state = record { promise = new_promise; ended = false };
    })
      ≡ some (g, served ((1, 5) ∷ ((3, 6) ∷ []))))
    × (g.body ≡ returned)
    × (g.state.ended ≡ true)
await_all-served_example =
    await_all-served 2 ((1, 5) ∷ []) 3 6 (record { promise = new_promise; ended = false })
      (record { attached = refl; calm = refl })
