-- ===== src/Lru/Factory.antt =====
-- cacheFactory and the capacity of cacheBase, include/utils/Lru.hpp. An int is its bit pattern of 32
-- bits, a size_t has 64.
use coro_iomultiplex.Prelude.{
  ℕ, ◌+◌, ◌-◌, ◌%◌, ◌^◌, ◌<◌, ◌≡◌, refl, ltb, if◌then◌else◌, Option, none, some, arith, [], ◌≤◌,
}
use coro_iomultiplex.Lru.{Cache, new_cache, put, get, make_room, evict, back}

-- cacheBase::policy.
pub data Policy : Type 0 where
  lru lfu fifo : Policy

-- The conversion of an int to size_t, and back.
unfoldable pub to_size : ℕ → ℕ
to_size n = if ltb n (2 ^ 31) then n else n + (2 ^ 64 - 2 ^ 32)

unfoldable pub to_int : ℕ → ℕ
to_int n = n % 2 ^ 32

-- cacheFactory::create; `none` throws "Not implemented yet".
unfoldable pub create : {K V : Type 0} → ℕ → Policy → Option (Cache K V)
unfolding to_size
create capacity lru = some (new_cache (to_size capacity))
create capacity lfu = none
create capacity fifo = none

-- getCapacity.
unfoldable pub get_capacity : {K V : Type 0} → Cache K V → ℕ
unfolding to_int
get_capacity c = to_int c.capacity

-- A cache of the factory has the capacity that it was asked for, also a negative one, and is empty; a
-- negative capacity is no bound below 2 ^ 63.
pub create-capacity :
    {K V : Type 0} (n : ℕ)
    → n < 2 ^ 32
    → (c : Cache K V) × (create n lru ≡ some c)
      × (get_capacity c ≡ n)
      × (c.cache_list ≡ [])
      × (2 ^ 31 ≤ n → 2 ^ 63 ≤ c.capacity)
unfolding create get_capacity new_cache to_size to_int
create-capacity n h = (new_cache (to_size n), refl, ground arith, refl, λ k. ground arith)

module _ {K V : Type 0} (dec : Discrete K) (path : V → K) where
  -- A cache of capacity 0 is of no use: the first file that can be built makes it take the back of an
  -- empty list.
  pub get-no_room :
      (build : K → Option V) (key : K) (v : V)
      → build key ≡ some v
      → get dec path build (new_cache 0) key ≡ none
  unfolding get put make_room evict back new_cache
  get-no_room build key v e = ground (arith, e)
