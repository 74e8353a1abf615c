-- ===== src/Files/Tests.antt =====
-- The file cache of include/file/FileCache.hpp on concrete files.
use coro_iomultiplex.Prelude.{◌≡◌, arith, Text, codes, List, [], ◌∷◌, none, some, true}
use coro_iomultiplex.Http.Socket.{returned, failed}
use coro_iomultiplex.Lru.{Cache, new_cache}
use coro_iomultiplex.Lru.Nodes.{values}
use coro_iomultiplex.Lru.Invariant.{IsValid}
use coro_iomultiplex.Files.{FileCache}
use coro_iomultiplex.Files.Cached.{text_discrete, path_of}
use coro_iomultiplex.Files.Throws.{Disk, Looked, lookups}
use coro_iomultiplex.Files.Lookups.{lookups-look_ups}
use coro_iomultiplex.Files.Fetched.{look_ups}

abbrev there : Disk
there = record { opens = λ p. returned 3; sizes = λ p. some 10; maps = λ p. true }

abbrev gone : Disk
gone = record { opens = λ p. failed 2; sizes = λ p. none; maps = λ p. true }

-- A directory.
abbrev sizeless : Disk
sizeless = record { opens = λ p. returned 4; sizes = λ p. none; maps = λ p. true }

abbrev asked : List (Disk × Text)
asked =
    (there, codes "/a")
    ∷ ((gone, codes "//a")
        ∷ ((gone, codes "/b") ∷ ((sizeless, codes "/c") ∷ ((sizeless, codes "/a") ∷ []))))

lookups-look_ups_example :
    (c' : Cache Text FileCache) × (rs : List Looked) × (lookups asked (new_cache 2) ≡ some (c', rs))
    × IsValid text_discrete path_of c'
    × (◌≡◌ {A = List FileCache × List Looked} (values c'.cache_list, rs) (look_ups 2 asked []))
lookups-look_ups_example = lookups-look_ups 2 asked (omega arith)
