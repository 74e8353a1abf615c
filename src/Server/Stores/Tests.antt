-- ===== src/Server/Stores/Tests.antt =====
-- The server of demo/uringhttp.cpp with its file cache on concrete requests.
use coro_iomultiplex.Prelude.{
  ◌≡◌, arith, codes, Text, List, [], ◌∷◌, ◌++◌, none, some, true, false, All, length, value,
}
use coro_iomultiplex.Http.Socket.{returned}
use coro_iomultiplex.Http.Receive.{blank_line}
use coro_iomultiplex.Lru.{Cache, new_cache}
use coro_iomultiplex.Files.{FileCache}
use coro_iomultiplex.Files.Throws.{Disk}
use coro_iomultiplex.Server.{Received, Served}
use coro_iomultiplex.Server.Answers.{IsServed}
use coro_iomultiplex.Server.Stored.{serve_all}
use coro_iomultiplex.Server.Stores.{IsStore, serve_all-confined}

abbrev there : Disk
there = record { opens = λ p. returned 3; sizes = λ p. some 10; maps = λ p. true }

abbrev sizeless : Disk
sizeless = record { opens = λ p. returned 4; sizes = λ p. none; maps = λ p. true }

abbrev asks : Text → Received
asks target = record {
  closed = false;
  result = value (
      codes "GET "
      ++ (target ++ (codes " HTTP/1.1" ++ (13 ∷ (10 ∷ (codes "Accept: */*" ++ blank_line))))));
}

abbrev visits : List (Disk × Received)
visits =
    (there, asks (codes "/a.txt"))
    ∷ ((there, asks (codes "/../b.txt")) ∷ ((sizeless, asks (codes "/conf.d")) ∷ []))

serve_all-confined_example :
    (c' : Cache Text FileCache) × (answers : List Served) × (serve_all
        (codes "/srv")
        visits
        (new_cache 1024)
      ≡ some (c', answers))
    × IsStore (codes "/srv") c'
    × All (IsServed (codes "/srv")) answers
    × (length answers ≡ 3)
serve_all-confined_example = serve_all-confined (codes "/srv") 1024 visits (omega arith)
