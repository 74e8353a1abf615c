-- ===== src/Lru.antt =====
-- lruCache of include/utils/Lru.hpp. The std::list is a list of nodes; an iterator is the number of
-- its node, which no later node reuses. The mutex makes each call one step. `none` is undefined
-- behaviour: an iterator to no node, or the back of an empty list.
pub mod Nodes
pub mod Abstract
pub mod Hit
pub mod Evict
pub mod Invariant
pub mod Refines
pub mod Runs
pub mod Factory
pub mod Tests
use coro_iomultiplex.Prelude.{
  ℕ, zero, suc, ◌==◌, List, [], ◌∷◌, Option, none, some, Bool, true, false, is_some, if◌then◌else◌,
  Table, empty_table, store, forget,
}

pub record Cache (K V : Type 0) : Type 0 where
  pub capacity : ℕ
  pub cache_list : List (ℕ × V)
  pub index : Table K ℕ
  pub next_node : ℕ

-- lruCache(int capacity).
unfoldable pub new_cache : {K V : Type 0} → ℕ → Cache K V
new_cache capacity = record {
  capacity = capacity;
  cache_list = [];
  index = empty_table;
  next_node = 0;
}

module _ {V : Type 0} where
  -- `*iterator`.
  unfoldable pub node_value : ℕ → List (ℕ × V) → Option V
  node_value i [] = none
  node_value i ((j, v) ∷ l) = if j == i then some v else node_value i l

  unfoldable pub unlink : ℕ → List (ℕ × V) → List (ℕ × V)
  unlink i [] = []
  unlink i ((j, v) ∷ l) = if j == i then l else (j, v) ∷ unlink i l

  -- `cacheList.splice(cacheList.begin(), cacheList, i)`.
  unfoldable pub splice_front : ℕ → List (ℕ × V) → List (ℕ × V)
  splice_front i l = elim (node_value i l) [ none ↦ l | some v ↦ (i, v) ∷ unlink i l ]

  -- `i == cacheList.begin()`.
  unfoldable pub is_front : ℕ → List (ℕ × V) → Bool
  is_front i [] = false
  is_front i ((j, v) ∷ l) = j == i

  -- `cacheList.back()` and `cacheList.pop_back()`.
  unfoldable pub back : List (ℕ × V) → Option V
  back [] = none
  back ((i, v) ∷ []) = some v
  back ((i, v) ∷ n ∷ l) = back (n ∷ l)

  unfoldable pub pop_back : List (ℕ × V) → List (ℕ × V)
  pop_back [] = []
  pop_back ((i, v) ∷ []) = []
  pop_back ((i, v) ∷ n ∷ l) = (i, v) ∷ pop_back (n ∷ l)

module _ {K V : Type 0} (dec : Discrete K) (path : V → K) where
  -- The eviction of `put`: the back node is erased under its own path.
  unfoldable pub evict : Cache K V → Option (Cache K V)
  evict c = elim (back c.cache_list) [
    | none ↦ none
    | some v ↦
        some (record c { index = forget dec (path v) c.index; cache_list = pop_back c.cache_list })
  ]

  unfoldable pub make_room : Cache K V → Option (Cache K V)
  make_room c = if c.index.count == c.capacity then evict c else some c

  unfoldable pub push_front : Cache K V → K → V → Cache K V
  push_front c key v = record c {
    cache_list = (c.next_node, v) ∷ c.cache_list;
    index = store dec key c.next_node c.index;
    next_node = suc c.next_node;
  }

  -- `put`; `build` is what the builder gives at this call, none for nullptr.
  unfoldable pub put : (K → Option V) → Cache K V → K → Option (Cache K V × Bool)
  put build c key = if is_some (c.index.entry key) then some (c, false) else elim (build key) [
    | none ↦ some (c, false)
    | some v ↦ elim (make_room c) [ none ↦ none | some c' ↦ some (push_front c' key v, true) ]
  ]

  -- `return *map[key]`.
  unfoldable pub read : Cache K V → K → Option (Cache K V × Option V)
  read c key = elim (c.index.entry key) [
    | none ↦ none
    | some i ↦ elim (node_value i c.cache_list) [ none ↦ none | some v ↦ some (c, some v) ]
  ]

  -- `get`.
  unfoldable pub get : (K → Option V) → Cache K V → K → Option (Cache K V × Option V)
  get build c key = elim (c.index.entry key) [
    | none ↦ elim (put build c key) [
      | none ↦ none
      | some (c', true) ↦ read c' key
      | some (c', false) ↦ some (c', none)
    ]
    | some i ↦
        read
          (record c {
            cache_list =
                if is_front i c.cache_list then c.cache_list else splice_front i c.cache_list;
          })
          key
  ]

-- `refresh`.
unfoldable pub refresh : {K V : Type 0} → Cache K V → Cache K V
refresh c = record c { cache_list = []; index = empty_table }
