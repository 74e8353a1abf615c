-- ===== src/Files/Cached.antt =====
-- The lruCache of include/utils/Lru.hpp with the builder of include/file/FileCache.hpp.
use coro_iomultiplex.Prelude.{
  ℕ, ℕ_discrete, ◌<◌, ◌≡◌, refl, sym, ap, ◌∙◌, Text, Bool, true, false, Option, none, some, arith,
  List, [], ◌∷◌, value, unexpected,
}
use mathlib.Core.List.{List-discrete}
use mathlib.Core.Option.{some-injective}
use coro_iomultiplex.Http.Socket.{Answer, returned, failed}
use coro_iomultiplex.Lru.{Cache, new_cache}
use coro_iomultiplex.Lru.Nodes.{values}
use coro_iomultiplex.Lru.Invariant.{IsValid, IsBuilder}
use coro_iomultiplex.Lru.Runs.{
  Call, gets, AreBuilders, run, run_abstract, new_cache-IsValid, run-refines,
}
use coro_iomultiplex.Files.{FileCache, FileSystem, build, open_file, map_file, new_file}

-- The keys are texts of paths with single slashes.
abbrev pub text_discrete : Discrete Text
text_discrete = List-discrete ℕ_discrete

-- fileCache::path.
abbrev pub path_of : FileCache → Text
path_of c = c.path

path_of-map_file : (b : Bool) (c : FileCache) → path_of (map_file b c).0 ≡ c.path
unfolding map_file
path_of-map_file true c = refl
path_of-map_file false c = refl

build-IsBuilder : (system : FileSystem) → IsBuilder text_discrete path_of (build system)
unfolding build open_file
build-IsBuilder system k v = go (system.opens k)
  where
    go :
        (a : Answer ℕ)
        → (elim (open_file a (system.size_at k) new_file).result as (λ x. Option FileCache) [
          | unexpected e ↦ none
          | value u ↦
              some
                (map_file (system.maps k) (record {
                  location = none;
                  file = (open_file a (system.size_at k) new_file).file;
                  path = k;
                })).0
        ])
          ≡ some v
        → path_of v ≡ k
    go (failed e) h = absurd (ground arith)
    go (returned fd) h =
        sym (ap path_of (some-injective _ v h))
        ∙ path_of-map_file (system.maps k) (record {
          location = none;
          file = record { fd = some fd; size = system.size_at k };
          path = k;
        })

-- The lookups that a server makes, each with the file system then.
abbrev pub lookups : List (FileSystem × Text) → List (Call text_discrete path_of)
lookups [] = []
lookups ((system, p) ∷ l) = gets (build system) p ∷ lookups l

lookups-AreBuilders : (l : List (FileSystem × Text)) → AreBuilders text_discrete path_of (lookups l)
lookups-AreBuilders [] = tt
lookups-AreBuilders ((system, p) ∷ l) = (build-IsBuilder system, lookups-AreBuilders l)

-- A new file cache with room for one file or more, over any lookups, whatever the file system is at
-- each: every lookup is defined, the cache stays valid, and the answers and the cached files are
-- those of the abstract cache.
pub run-lookups :
    (n : ℕ) (l : List (FileSystem × Text))
    → 0 < n
    → (c' : Cache Text FileCache) × (rs : List (Option FileCache)) × (run text_discrete path_of
          (lookups l)
          (new_cache n)
        ≡ some (c', rs))
      × IsValid text_discrete path_of c'
      × (◌≡◌ {A = List FileCache × List (Option FileCache)}
          (values c'.cache_list, rs)
          (run_abstract text_discrete path_of n (lookups l) []))
unfolding new_cache
run-lookups n l h =
    run-refines text_discrete path_of (lookups l) (new_cache n) (lookups-AreBuilders l)
      (new_cache-IsValid text_discrete path_of n h)
