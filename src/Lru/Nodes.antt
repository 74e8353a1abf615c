-- ===== src/Lru/Nodes.antt =====
-- The list of nodes of include/utils/Lru.hpp against the keys that its values carry.
use coro_iomultiplex.Prelude.{ℕ, ◌≡◌, ite, List, [], ◌∷◌, map, Option, none, some}
use coro_iomultiplex.Lru.{node_value}

module _ {K V : Type 0} (dec : Discrete K) (path : V → K) where
  -- The node of a key.
  unfoldable pub node_of : K → List (ℕ × V) → Option ℕ
  node_of k [] = none
  node_of k ((i, v) ∷ l) = ite (dec k (path v)) (some i) (node_of k l)

  -- No two nodes have one number or one key.
  abbrev pub Apart : List (ℕ × V) → Type 0
  Apart [] = Unit
  Apart ((i, v) ∷ l) = (node_of (path v) l ≡ none) × (node_value i l ≡ none) × Apart l

  -- The values alone, as a list by key.
  unfoldable pub find_key : K → List V → Option V
  find_key k [] = none
  find_key k (v ∷ vs) = ite (dec k (path v)) (some v) (find_key k vs)

  unfoldable pub remove_key : K → List V → List V
  remove_key k [] = []
  remove_key k (v ∷ vs) = ite (dec k (path v)) vs (v ∷ remove_key k vs)

abbrev pub values : {V : Type 0} → List (ℕ × V) → List V
values = map (λ n. n.1)
