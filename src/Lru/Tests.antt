-- ===== src/Lru/Tests.antt =====
-- lruCache of include/utils/Lru.hpp on concrete calls: keys and values are numbers, and a value is
-- its own path.
use coro_iomultiplex.Prelude.{ℕ, ◌≡◌, sym, arith, List, [], ◌∷◌, Option, some, ℕ_discrete}
use mathlib.Core.Option.{some-injective}
use coro_iomultiplex.Lru.{Cache, new_cache}
use coro_iomultiplex.Lru.Nodes.{values}
use coro_iomultiplex.Lru.Invariant.{IsValid, IsBuilder}
use coro_iomultiplex.Lru.Runs.{
  Call, gets, refreshes, run, run_abstract, new_cache-IsValid, run-refines,
}

abbrev path : ℕ → ℕ
path v = v

abbrev build : ℕ → Option ℕ
build key = some key

build-IsBuilder : IsBuilder ℕ_discrete path build
build-IsBuilder k v e = sym (some-injective k v e)

abbrev calls : List (Call ℕ_discrete path)
calls =
    gets build 1
    ∷ (gets build 2
        ∷ (gets build 1 ∷ (gets build 3 ∷ (gets build 2 ∷ (refreshes ∷ (gets build 3 ∷ []))))))

run-refines_example :
    (c' : Cache ℕ ℕ) × (rs : List (Option ℕ)) × (run ℕ_discrete path calls (new_cache 2)
      ≡ some (c', rs))
    × IsValid ℕ_discrete path c'
    × (◌≡◌ {A = List ℕ × List (Option ℕ)}
        (values c'.cache_list, rs)
        (run_abstract ℕ_discrete path 2 calls []))
unfolding new_cache
run-refines_example =
    run-refines ℕ_discrete path calls (new_cache 2)
      (
        build-IsBuilder,
        (
          build-IsBuilder,
          (build-IsBuilder, (build-IsBuilder, (build-IsBuilder, (build-IsBuilder, tt)))),
        ),
      )
      (new_cache-IsValid ℕ_discrete path 2 (omega arith))
