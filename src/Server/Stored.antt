-- ===== src/Server/Stored.antt =====
-- demo/uringhttp.cpp with its file cache: which file an answer looks up, and the cache over the
-- answers of all sessions. Each lookup holds the mutex of the cache, so lookups come one after the
-- other.
use coro_iomultiplex.Prelude.{
  ℕ, Text, List, [], ◌∷◌, Option, none, some, value, unexpected, same_category, http_error,
  if◌then◌else◌,
}
use coro_iomultiplex.Http.Status.{ok, Request, new_request}
use coro_iomultiplex.Http.Request.{parse_request}
use coro_iomultiplex.Http.Response.{returns, out_of_range, respond}
use coro_iomultiplex.Lru.{Cache}
use coro_iomultiplex.Files.{FileCache}
use coro_iomultiplex.Files.Throws.{Disk, Looked, answered, lookup}
use coro_iomultiplex.Files.Throws as Throws
use coro_iomultiplex.Server.{Received, Served, Sought, raised, sized, serve, errc_at}

-- fileCache::size; an unmapped file has the empty span.
unfoldable pub size_of : Option FileCache → Option ℕ
size_of none = none
size_of (some f) = elim f.location [ none ↦ some 0 | some n ↦ some n ]

-- The path that responseHandler looks up: that of an OK response.
unfoldable pub wanted_by : Text → Request → Option Text
wanted_by root request = elim (respond request root) [
  | out_of_range ↦ none
  | returns s ↦ elim s.status [ ok ↦ some s.uri | _ ↦ none ]
]

-- The path that the answer of clientHandle to what readRequest left looks up.
unfoldable pub wanted : Text → Received → Option Text
unfolding wanted_by errc_at
wanted root r = elim r.result [
  | value message ↦ elim (parse_request new_request message) [
    | none ↦ none
    | some p ↦ wanted_by root p.request
  ]
  | unexpected e ↦
      if same_category e.category http_error
      then elim (errc_at e.number) [
        | none ↦ none
        | some status ↦ wanted_by root (record new_request { status = status })
      ]
      else none
]

-- What a responseHandler sees of its lookup.
abbrev pub sought_of : Looked → Sought
sought_of (Throws.Looked.threw released) = raised
sought_of (answered f) = sized (size_of f)

-- clientHandle and its responseHandler on the cache; `none` is undefined. An exception of file_size
-- leaves the handler.
unfoldable pub serve_stored :
    Text → Disk → Cache Text FileCache → Received → Option (Cache Text FileCache × Served)
unfolding wanted size_of
serve_stored root disk c r = elim (wanted root r) [
  | none ↦ some (c, serve root (λ q. sized none) r)
  | some p ↦ elim (lookup disk c p) [
    | none ↦ none
    | some (c', found) ↦ some (c', serve root (λ q. sought_of found) r)
  ]
]

-- The answers of all sessions, in the order of their lookups.
unfoldable pub serve_all :
    Text
    → List (Disk × Received)
    → Cache Text FileCache
    → Option (Cache Text FileCache × List Served)
unfolding serve_stored
serve_all root [] c = some (c, [])
serve_all root ((disk, r) ∷ l) c = elim (serve_stored root disk c r) [
  | none ↦ none
  | some (c', a) ↦ elim (serve_all root l c') [
    | none ↦ none
    | some (c'', rest) ↦ some (c'', a ∷ rest)
  ]
]
