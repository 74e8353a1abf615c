-- ===== src/Files.antt =====
-- regularFile of include/file/File.hpp, and fileCache with its builder of include/file/FileCache.hpp.
-- What open, file_size and mmap give is an argument; Throws has a file_size that throws.
pub mod Cached
pub mod Dropped
pub mod Throws
pub mod Fetched
pub mod Lookups
pub mod Tests
use coro_iomultiplex.Prelude.{
  ℕ, Text, Bool, true, false, Option, none, some, Expected, value, unexpected, system_error, List,
  [], ◌∷◌,
}
use coro_iomultiplex.Http.Socket.{Answer, returned, failed}

-- regularFile; `none` is a negative descriptor.
pub record RegularFile : Type 0 where
  pub fd : Option ℕ
  pub size : ℕ

-- regularFile().
abbrev pub new_file : RegularFile
new_file = record { fd = none; size = 0 }

-- What open leaves and returns, and the descriptor that it closes.
pub record Opened : Type 0 where
  pub file : RegularFile
  pub closed : Option ℕ
  pub result : Expected (Unit {0})

-- regularFile::open.
unfoldable pub open_file : Answer ℕ → ℕ → RegularFile → Opened
open_file (failed errno) size f = record {
  file = record f { fd = none };
  closed = f.fd;
  result = unexpected (record { number = errno; category = system_error });
}
open_file (returned fd) size f = record {
  file = record { fd = some fd; size = size };
  closed = f.fd;
  result = value tt;
}

-- regularFile(regularFile &&): the new file, and what is left of the other.
unfoldable pub move_file : RegularFile → RegularFile × RegularFile
move_file other = (record { fd = other.fd; size = other.size }, record { fd = none; size = 0 })

-- fileCache; `location` is the size of the mapping, none for no mapping.
pub record FileCache : Type 0 where
  pub location : Option ℕ
  pub file : RegularFile
  pub path : Text

-- fileCache::map, with whether mmap succeeds.
unfoldable pub map_file : Bool → FileCache → FileCache × Bool
map_file true c = (record c { location = some c.file.size }, true)
map_file false c = (c, false)

-- The system at one time: what open, file_size and mmap give for a path.
pub record FileSystem : Type 0 where
  pub opens : Text → Answer ℕ
  pub size_at : Text → ℕ
  pub maps : Text → Bool

-- fileCacheBuilder::build; what map returns is not looked at.
unfoldable pub build : FileSystem → Text → Option FileCache
unfolding open_file map_file
build system p =
    let opened = open_file (system.opens p) (system.size_at p) new_file in
    elim opened.result [
      | unexpected e ↦ none
      | value u ↦
          some
            (map_file (system.maps p) (record { location = none; file = opened.file; path = p })).0
    ]

-- What ~fileCache releases: the mapping, and then the descriptor, by the destructor of its file.
pub record Released : Type 0 where
  pub unmapped : Option ℕ
  pub closed : Option ℕ

-- ~fileCache, and ~regularFile.
unfoldable pub drop_cache : FileCache → Released
drop_cache c = record { unmapped = c.location; closed = c.file.fd }
