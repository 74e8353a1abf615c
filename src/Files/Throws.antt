-- ===== src/Files/Throws.antt =====
-- regularFile::open of include/file/File.hpp, the builder of include/file/FileCache.hpp and a lookup of
-- include/utils/Lru.hpp where std::filesystem::file_size may throw, as for a directory or a file that
-- is gone once it is open.
use coro_iomultiplex.Prelude.{
  ◌==◌, ◌&&◌, if◌then◌else◌, ℕ, Text, Bool, List, [], ◌∷◌, Option, none, some, value, unexpected,
}
use coro_iomultiplex.Http.Socket.{Answer, returned, failed}
use coro_iomultiplex.Lru.{Cache, get}
use coro_iomultiplex.Files.{
  RegularFile, Opened, open_file, new_file, FileCache, map_file, Released, drop_cache,
}
use coro_iomultiplex.Files.Cached.{text_discrete, path_of}

-- Two of std::filesystem::path are equal when they have the same elements and are both absolute or
-- both relative: when their texts differ in repeated slashes only. A path is taken as the text with
-- single slashes, for the keys of the cache and for the calls of the system, to which repeated slashes
-- are one as well.
unfoldable pub collapse : Text → Text
collapse [] = []
collapse (c ∷ []) = c ∷ []
collapse (c ∷ (d ∷ s)) =
    let rest = collapse (d ∷ s) in if (c == 47) && (d == 47) then rest else c ∷ rest

-- What open, file_size and mmap give for a path; no size is one that throws.
pub record Disk : Type 0 where
  pub opens : Text → Answer ℕ
  pub sizes : Text → Option ℕ
  pub maps : Text → Bool

-- open returns, or it throws and leaves the file so, with the descriptor that it closed.
pub data Tried : Type 0 where
  opened : Opened → Tried
  threw : RegularFile → Option ℕ → Tried

-- regularFile::open; the size is asked for once the file is open.
unfoldable pub try_open : Answer ℕ → Option ℕ → RegularFile → Tried
unfolding open_file
try_open (failed errno) size f = opened (open_file (failed errno) 0 f)
try_open (returned fd) (some size) f = opened (open_file (returned fd) size f)
try_open (returned fd) none f = threw (record f { fd = some fd }) f.fd

-- build gives a file or nullptr, or it throws, and the fileCache that it made is destroyed.
pub data Built : Type 0 where
  gave : Option FileCache → Built
  threw : Released → Built

-- fileCacheBuilder::build.
unfoldable pub try_build : Disk → Text → Built
unfolding try_open map_file drop_cache
try_build disk p = elim (try_open (disk.opens p) (disk.sizes p) new_file) [
  | threw f closed ↦ threw (drop_cache (record { location = none; file = f; path = [] }))
  | opened o ↦ elim o.result [
    | unexpected e ↦ gave none
    | value u ↦
        gave (some (map_file (disk.maps p) (record { location = none; file = o.file; path = p })).0)
  ]
]

-- What the builder gives where it does not throw.
unfoldable pub given : Disk → Text → Option FileCache
unfolding try_build
given disk p = elim (try_build disk p) [ threw r ↦ none | gave o ↦ o ]

-- A lookup answers, or throws what the builder threw.
pub data Looked : Type 0 where
  answered : Option FileCache → Looked
  threw : Released → Looked

-- A get that does not throw.
abbrev pub answer :
    Option (Cache Text FileCache × Option FileCache) → Option (Cache Text FileCache × Looked)
answer none = none
answer (some (c, r)) = some (c, answered r)

-- lruCache::get; a key that is not in the cache is built before anything of the cache changes.
unfoldable pub lookup_key :
    Disk → Cache Text FileCache → Text → Option (Cache Text FileCache × Looked)
unfolding given
lookup_key disk c p = elim (c.index.entry p) [
  | some i ↦ answer (get text_discrete path_of (given disk) c p)
  | none ↦ elim (try_build disk p) [
    | threw r ↦ some (c, threw r)
    | gave o ↦ answer (get text_discrete path_of (given disk) c p)
  ]
]

-- The lookup of a std::filesystem::path, whose key is the path up to repeated slashes.
abbrev pub lookup : Disk → Cache Text FileCache → Text → Option (Cache Text FileCache × Looked)
lookup disk c p = lookup_key disk c (collapse p)

-- Lookups in turn; `none` is undefined.
unfoldable pub lookups :
    List (Disk × Text) → Cache Text FileCache → Option (Cache Text FileCache × List Looked)
unfolding lookup_key
lookups [] c = some (c, [])
lookups ((disk, p) ∷ l) c = elim (lookup disk c p) [
  | none ↦ none
  | some (c', r) ↦ elim (lookups l c') [ none ↦ none | some (c'', rs) ↦ some (c'', r ∷ rs) ]
]
