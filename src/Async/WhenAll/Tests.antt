-- ===== src/Async/WhenAll/Tests.antt =====
-- The helpers of whenAll of include/async/WhenAll.hpp on concrete ends.
use coro_iomultiplex.Prelude.{ℕ, ◌≡◌, refl, arith, List, [], ◌∷◌, none, some, get_elem?}
use coro_iomultiplex.Async.Tasks.{transfers}
use coro_iomultiplex.Async.WhenAll.Returns.{ended_with, when_all-result}
use coro_iomultiplex.Async.WhenAll.{gathering, helpers, helper, helper_return, RunAll, when_all}

-- The second of two tasks ends first.
abbrev task_ends : List (ℕ × ℕ)
task_ends = (1, 20) ∷ ((0, 10) ∷ [])

abbrev initial : List ℕ
initial = 0 ∷ (0 ∷ [])

returned-coros : (helpers task_ends (gathering 2 7 initial)).1 ≡ none ∷ (some 7 ∷ [])
unfolding helpers helper helper_return gathering
returned-coros = refl

-- A loop that returns when the second of two tasks has ended.
abbrev half : RunAll ℕ
half coros = (1, 20) ∷ []

when_all-result_example :
    ((i : ℕ)
      → get_elem? (when_all half (4 ∷ (5 ∷ [])) 7 initial).0 i
        ≡ ended_with i ((1, 20) ∷ []) (get_elem? initial i))
    × ((when_all half (4 ∷ (5 ∷ [])) 7 initial).1.count ≡ 1)
    × ((when_all half (4 ∷ (5 ∷ [])) 7 initial).2 ≡ transfers 7)
when_all-result_example =
    when_all-result half (4 ∷ (5 ∷ [])) 7 initial (omega arith) (omega arith) (tt, tt)
      (omega arith, tt)
