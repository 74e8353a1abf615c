-- ===== src/Files/Dropped.antt =====
-- What a cached file of include/file/FileCache.hpp takes and gives back.
use coro_iomultiplex.Prelude.{
  ℕ, ◌≡◌, refl, Text, Bool, true, false, none, some, if◌then◌else◌, arith,
}
use coro_iomultiplex.Http.Socket.{returned}
use coro_iomultiplex.Files.{FileCache, FileSystem, open_file, map_file, build, drop_cache}

-- The file of a path, before it is mapped.
opened_cache : ℕ → ℕ → Text → FileCache
opened_cache fd size p = record {
  location = none;
  file = record { fd = some fd; size = size };
  path = p;
}

build-returned :
    (system : FileSystem) (p : Text) (fd : ℕ)
    → system.opens p ≡ returned fd
    → build system p ≡ some (map_file (system.maps p) (opened_cache fd (system.size_at p) p)).0
unfolding build open_file opened_cache
build-returned system p fd e = ground (arith, e)

drop_cache-map_file :
    (mapped : Bool) (fd size : ℕ) (p : Text)
    → let c = (map_file mapped (opened_cache fd size p)).0 in
      (c.path ≡ p)
      × (drop_cache c ≡ record { unmapped = if mapped then some size else none; closed = some fd })
unfolding map_file drop_cache opened_cache
drop_cache-map_file true fd size p = (refl, refl)
drop_cache-map_file false fd size p = (refl, refl)

-- A path that open succeeds on is cached under its name, and what the destructor gives back is what
-- was taken: the descriptor that open gave, and the mapping of the whole file, if there is one.
pub drop_cache-build :
    (system : FileSystem) (p : Text) (fd : ℕ)
    → system.opens p ≡ returned fd
    → (c : FileCache) × (build system p ≡ some c)
      × (c.path ≡ p)
      × (drop_cache c ≡ record {
        unmapped = if system.maps p then some (system.size_at p) else none;
        closed = some fd;
      })
drop_cache-build system p fd e =
    let (named, dropped) = drop_cache-map_file (system.maps p) fd (system.size_at p) p in
    (
      (map_file (system.maps p) (opened_cache fd (system.size_at p) p)).0,
      build-returned system p fd e,
      named,
      dropped,
    )
