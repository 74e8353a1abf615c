-- ===== src/Lru/Abstract.antt =====
-- What the lruCache of include/utils/Lru.hpp promises: a list of values, the most recently used first, with one value for each
-- key and at most as many as the capacity.
use coro_iomultiplex.Prelude.{ℕ, ◌-◌, List, ◌∷◌, Option, none, some, take}
use coro_iomultiplex.Lru.Nodes.{find_key, remove_key}

module _ {K V : Type 0} (dec : Discrete K) (path : V → K) where
  -- A hit moves to the front; a miss puts what can be built in front, and the value that was used
  -- longest ago makes room; nothing changes if nothing can be built.
  unfoldable pub use_key : ℕ → (K → Option V) → K → List V → List V × Option V
  use_key cap build key vs = elim (find_key dec path key vs) [
    | some v ↦ (v ∷ remove_key dec path key vs, some v)
    | none ↦ elim (build key) [ none ↦ (vs, none) | some v ↦ (v ∷ take (cap - 1) vs, some v) ]
  ]
