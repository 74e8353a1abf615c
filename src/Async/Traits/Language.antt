-- ===== src/Async/Traits/Language.antt =====
-- The tuple of whenAll of include/async/WhenAll.hpp against what the C++ language does with co_await.
use coro_iomultiplex.Prelude.{true, false, List, [], ◌∷◌, none, some, ◌≡◌, ◌≢◌, arith}
use coro_iomultiplex.Async.Traits.{
  Ty, void, Classes, non_void, non_void_ret_type, can_hold, place_type, when_all_types,
}
use coro_iomultiplex.Async.Traits.CoAwait.{co_await_type, hands_over, IsPlain, ret_type-co_await}

-- Each task hands over, and its place has the type of its co_await, or nonVoidHelper<void> for void,
-- which can be held.
abbrev pub Results : Classes → List Ty → List Ty → Type 0
Results classes [] [] = Unit
Results classes [] (r ∷ rs) = ⊥
Results classes (t ∷ ts) [] = ⊥
Results classes (t ∷ ts) (r ∷ rs) =
    (hands_over classes t ≡ true)
    × ((s : Ty) × (co_await_type classes t ≡ some s) × (r ≡ non_void s) × (r ≢ void))
    × (can_hold classes r ≡ true)
    × Results classes ts rs

-- So co_await takes an awaiter whose await_suspend gives void or bool, and whenAll does not.
pub when_all_types-refused :
    (classes : Classes) (t : Ty) (ts : List Ty)
    → IsPlain classes t
    → hands_over classes t ≡ false
    → when_all_types classes (t ∷ ts) ≡ none
unfolding when_all_types place_type non_void_ret_type
when_all_types-refused classes t ts p h = ground (arith, ret_type-co_await classes t p)
