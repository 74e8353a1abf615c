-- ===== src/Lru/Runs.antt =====
-- Sequences of calls on the lruCache of include/utils/Lru.hpp, against the abstract one.
use coro_iomultiplex.Prelude.{
  ℕ, ◌<◌, ◌≡◌, refl, sym, subst, List, [], ◌∷◌, Option, none, some, arith,
}
use mathlib.Core.Option
use coro_iomultiplex.Lru.{Cache, new_cache, get, refresh}
use coro_iomultiplex.Lru.Nodes.{node_of, values}
use coro_iomultiplex.Lru.Abstract.{use_key}
use coro_iomultiplex.Lru.Invariant.{IsValid, IsBuilder}
use coro_iomultiplex.Lru.Refines.{get-refines}

module _ {K V : Type 0} (dec : Discrete K) (path : V → K) where
  pub new_cache-IsValid : (n : ℕ) → 0 < n → IsValid dec path (new_cache n)
  unfolding new_cache node_of
  new_cache-IsValid n h = record {
    positive = h;
    bounded = omega arith;
    counted = refl;
    indexed = λ k. refl;
    apart = tt;
    older = tt;
  }

  -- The calls that a client makes; each `get` with what the builder would give then.
  pub data Call : Type 0 where
    gets : (K → Option V) → K → Call
    refreshes : Call

  abbrev pub AreBuilders : List Call → Type 0
  AreBuilders [] = Unit
  AreBuilders (gets build key ∷ calls) = IsBuilder dec path build × AreBuilders calls
  AreBuilders (refreshes ∷ calls) = AreBuilders calls

  -- The answers, and the cache at the end; none if a call is undefined.
  unfoldable pub run : List Call → Cache K V → Option (Cache K V × List (Option V))
  run [] c = some (c, [])
  run (gets build key ∷ calls) c = elim (get dec path build c key) [
    | none ↦ none
    | some (c', r) ↦ Option.map (λ o. (o.0, r ∷ o.1)) (run calls c')
  ]
  run (refreshes ∷ calls) c = run calls (refresh c)

  unfoldable pub run_abstract : ℕ → List Call → List V → List V × List (Option V)
  run_abstract cap [] vs = (vs, [])
  run_abstract cap (gets build key ∷ calls) vs =
      let (vs', r) = use_key dec path cap build key vs in
      let (end', rs) = run_abstract cap calls vs' in (end', r ∷ rs)
  run_abstract cap (refreshes ∷ calls) vs = run_abstract cap calls []

  run_abstract-gets :
      (cap : ℕ) (build : K → Option V) (key : K) (calls : List Call) (vs vs' : List V)
      (r : Option V) (end' : List V) (rs : List (Option V))
      → use_key dec path cap build key vs ≡ (vs', r)
      → run_abstract cap calls vs' ≡ (end', rs)
      → ◌≡◌ {A = List V × List (Option V)}
          (end', r ∷ rs)
          (run_abstract cap (gets build key ∷ calls) vs)
  unfolding run_abstract
  run_abstract-gets cap build key calls vs vs' r end' rs h k = rw h (rw k)

  refresh-IsValid : (c : Cache K V) → IsValid dec path c → IsValid dec path (refresh c)
  unfolding refresh node_of
  refresh-IsValid c w = record {
    positive = w.positive;
    bounded = omega arith;
    counted = refl;
    indexed = λ k. refl;
    apart = tt;
    older = tt;
  }

  -- Any sequence of calls on a valid cache is defined, keeps it valid, and gives the answers and
  -- the values that the abstract cache gives.
  pub run-refines :
      (calls : List Call) (c : Cache K V)
      → AreBuilders calls
      → IsValid dec path c
      → (c' : Cache K V) × (rs : List (Option V)) × (run calls c ≡ some (c', rs))
        × IsValid dec path c'
        × (◌≡◌ {A = List V × List (Option V)}
            (values c'.cache_list, rs)
            (run_abstract c.capacity calls (values c.cache_list)))
  unfolding run run_abstract refresh
  run-refines [] c b w = (c, [], refl, w, refl)
  run-refines (gets build key ∷ calls) c b w =
      let (c', r, e, w', cap, eq) = get-refines dec path build c key b.0 w in
      let (d, rs, e', w'', eq') = run-refines calls c' b.1 w' in
      (
        d,
        r ∷ rs,
        rw (e, run) (rw e'),
        w'',
        run_abstract-gets c.capacity build key calls (values c.cache_list) (values c'.cache_list) r
            (values d.cache_list) rs (sym eq)
            (subst (λ n. run_abstract n calls (values c'.cache_list) ≡ (values d.cache_list, rs))
              cap (sym eq')),
      )
  run-refines (refreshes ∷ calls) c b w = run-refines calls (refresh c) b (refresh-IsValid c w)
