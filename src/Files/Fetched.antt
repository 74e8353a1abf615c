-- ===== src/Files/Fetched.antt =====
-- The abstract file cache of include/file/FileCache.hpp, and what its builder gives.
use coro_iomultiplex.Prelude.{
  ℕ, ◌-◌, ◌≡◌, refl, Text, Bool, true, false, List, [], ◌∷◌, Option, none, some, take,
  if◌then◌else◌, arith,
}
use coro_iomultiplex.Http.Socket.{Answer, returned, failed}
use coro_iomultiplex.Lru.Nodes.{find_key, remove_key}
use coro_iomultiplex.Files.{open_file, FileCache, map_file, drop_cache}
use coro_iomultiplex.Files.Cached.{text_discrete, path_of}
use coro_iomultiplex.Files.Throws.{
  collapse, Disk, Built, gave, try_open, try_build, given, Looked, answered, answer, lookup,
  lookups,
}
use coro_iomultiplex.Files.Throws as Throws

-- The cached file of a path that opens and has a size.
unfoldable pub cached_file : Bool → ℕ → ℕ → Text → FileCache
cached_file mapped fd size p = record {
  location = if mapped then some size else none;
  file = record { fd = some fd; size = size };
  path = p;
}

-- What a lookup of a key that is not cached gives: a new file, nothing, or an exception that closes
-- the descriptor.
unfoldable pub fetched : Answer ℕ → Option ℕ → Bool → Text → Built
unfolding cached_file
fetched (failed errno) size mapped p = gave none
fetched (returned fd) none mapped p =
    Throws.Built.threw (record { unmapped = none; closed = some fd })
fetched (returned fd) (some size) mapped p = gave (some (cached_file mapped fd size p))

-- The abstract file cache: the files that were used, the last one first.
unfoldable pub look_up : ℕ → Disk → Text → List FileCache → List FileCache × Looked
unfolding fetched
look_up capacity disk p files = elim (find_key text_discrete path_of p files) [
  | some f ↦ (f ∷ remove_key text_discrete path_of p files, answered (some f))
  | none ↦ elim (fetched (disk.opens p) (disk.sizes p) (disk.maps p) p) [
    | gave none ↦ (files, answered none)
    | gave (some f) ↦ (f ∷ take (capacity - 1) files, answered (some f))
    | Throws.Built.threw r ↦ (files, Throws.Looked.threw r)
  ]
]

unfoldable pub look_ups : ℕ → List (Disk × Text) → List FileCache → List FileCache × List Looked
look_ups capacity [] files = (files, [])
look_ups capacity ((disk, p) ∷ l) files =
    let (files', r) = look_up capacity disk (collapse p) files in
    let (end', rs) = look_ups capacity l files' in (end', r ∷ rs)

pub try_build-by :
    (a : Answer ℕ) (size : Option ℕ) (mapped : Bool) (p : Text)
    → try_build (record { opens = λ q. a; sizes = λ q. size; maps = λ q. mapped }) p
      ≡ fetched a size mapped p
unfolding try_build try_open open_file map_file drop_cache fetched cached_file
try_build-by (failed errno) size mapped p = refl
try_build-by (returned fd) none mapped p = refl
try_build-by (returned fd) (some size) true p = refl
try_build-by (returned fd) (some size) false p = refl

pub try_build-fetched :
    (disk : Disk) (p : Text)
    → try_build disk p ≡ fetched (disk.opens p) (disk.sizes p) (disk.maps p) p
unfolding try_build
try_build-fetched disk p = try_build-by (disk.opens p) (disk.sizes p) (disk.maps p) p

pub fetched-path :
    (a : Answer ℕ) (size : Option ℕ) (mapped : Bool) (p : Text) (f : FileCache)
    → fetched a size mapped p ≡ gave (some f)
    → path_of f ≡ p
unfolding fetched cached_file
fetched-path (failed errno) size mapped p f h = absurd (ground arith)
fetched-path (returned fd) none mapped p f h = absurd (ground arith)
fetched-path (returned fd) (some size) mapped p f h = ground arith
