-- ===== src/Server/Stores.antt =====
-- The answers of demo/uringhttp.cpp over its file cache.
mod Tests
use coro_iomultiplex.Prelude.{
  ℕ, zero, suc, ◌-◌, ◌<◌, ◌≡◌, refl, sym, if_pos, if_neg, ap, ◌∙◌, subst, Text, List, [], ◌∷◌,
  Option, none, some, ◌||◌, Bool, true, false, All, take, length, arith, Option-cases, inl, inr,
  value, unexpected, if◌then◌else◌, same_category, http_error, Bool-cases, Expected,
}
use coro_iomultiplex.Http.Socket.{Answer, returned, failed}
use coro_iomultiplex.Http.Status.{ok, Request, new_request, HttpErrc}
use coro_iomultiplex.Http.Request.{Parsed, parse_request}
use coro_iomultiplex.Http.Paths.{join, is_absolute}
use coro_iomultiplex.Http.Paths.Pieces.{IsInside}
use coro_iomultiplex.Http.Response.{Response, Built, returns, out_of_range, respond}
use coro_iomultiplex.Http.Response.Confined.{respond-confined}
use coro_iomultiplex.Lru.{Cache, new_cache}
use coro_iomultiplex.Lru.Nodes.{values, find_key, remove_key}
use coro_iomultiplex.Lru.Invariant.{IsValid}
use coro_iomultiplex.Lru.Runs.{new_cache-IsValid}
use coro_iomultiplex.Files.{FileCache}
use coro_iomultiplex.Files.Cached.{text_discrete, path_of}
use coro_iomultiplex.Files.Throws.{collapse, lookup_key, Disk, Looked, answered, lookup, gave}
use coro_iomultiplex.Files.Throws as Throws
use coro_iomultiplex.Files.Lookups.{lookup-refines}
use coro_iomultiplex.Files.Fetched.{look_up, fetched, try_build-fetched}
use coro_iomultiplex.Server.{
  Received, Served, sized, raised, ends, throws, answer, reply, is_ok, closes, serve_parsed,
  serve_status, serve, errc_at,
}
use coro_iomultiplex.Server.Answers.{IsServed, serve-IsServed}
use coro_iomultiplex.Server.Stored.{size_of, sought_of, wanted_by, wanted, serve_stored, serve_all}
use coro_iomultiplex.Server.Confined.{
  IsConfined, AreConfined, wanted-IsConfined, look_up-AreConfined,
}

-- The cache between two answers: valid, and with files of the web root.
pub record IsStore (root : Text) (c : Cache Text FileCache) : Type 0 where
  pub valid : IsValid text_discrete path_of c
  pub confined : AreConfined root (values c.cache_list)

serve_looked :
    (root : Text) (r : Received) (disk : Disk) (c c' : Cache Text FileCache) (p : Text)
    (found : Looked)
    → wanted root r ≡ some p
    → lookup disk c p ≡ some (c', found)
    → serve_stored root disk c r ≡ some (c', serve root (λ q. sought_of found) r)
unfolding serve_stored
serve_looked root r disk c c' p found e h = rw (e, serve_stored) (rw (h, serve_stored) refl)

fetched-threw :
    (disk : Disk) (p : Text) (fd : ℕ)
    → disk.opens p ≡ returned fd
    → disk.sizes p ≡ none
    → fetched (disk.opens p) (disk.sizes p) (disk.maps p) p
      ≡ Throws.Built.threw (record { unmapped = none; closed = some fd })
unfolding fetched
fetched-threw disk p fd opens size = ground arith

answer-throws :
    (root p : Text) (request : Request) (close : Bool)
    → wanted_by root request ≡ some p
    → answer root (λ q. raised) request close ≡ throws
unfolding wanted_by answer reply is_ok
answer-throws root p request close h = ground arith

serve-throws :
    (root p : Text) (closed : Bool) (result : Expected Text)
    → let r : Received = record { closed = closed; result = result } in
      wanted root r ≡ some p → serve root (λ q. raised) r ≡ throws
unfolding wanted serve serve_parsed serve_status
serve-throws root p closed (value message) h = parsed (parse_request new_request message) h
  where
    parsed :
        (q : Option Parsed)
        → elim q as (λ x. Option Text) [ none ↦ none | some x ↦ wanted_by root x.request ] ≡ some p
        → serve_parsed root (λ q. raised) closed q ≡ throws
    parsed none k = absurd (ground arith)
    parsed (some x) k = answer-throws root p x.request (closes x.request || closed) k
serve-throws root p closed (unexpected e) h =
    coded (same_category e.category http_error) (errc_at e.number) h
  where
    coded :
        (known : Bool) (status : Option HttpErrc)
        → (if known
            then elim status as (λ x. Option Text) [
              | none ↦ none
              | some x ↦ wanted_by root (record new_request { status = x })
            ]
            else none)
          ≡ some p
        → (if known then serve_status root (λ q. raised) closed status else ends) ≡ throws
    coded true none k = absurd (ground arith)
    coded true (some x) k =
        let request : Request = record new_request { status = x } in
        answer-throws root p request (closes request || closed) k
    coded false status k = absurd (ground arith)

-- A file that opens and whose size throws, such as a directory with a dot in its name: the handler
-- throws, and, as it is detached, ends the process.
serve_stored-throws :
    (root : Text) (disk : Disk) (c : Cache Text FileCache) (r : Received) (p : Text) (fd : ℕ)
    → wanted root r ≡ some p
    → c.index.entry (collapse p) ≡ none
    → disk.opens (collapse p) ≡ returned fd
    → disk.sizes (collapse p) ≡ none
    → serve_stored root disk c r ≡ some (c, throws)
unfolding lookup_key
serve_stored-throws root disk c r p fd e miss opens size =
    let fails = Throws.Looked.threw (record { unmapped = none; closed = some fd }) in
    serve_looked root r disk c c p fails e (
      ground (
        arith,
        miss,
        try_build-fetched disk (collapse p),
        fetched-threw disk (collapse p) fd opens size,
      ))
    ∙ ap (λ a. some (c, a)) (serve-throws root p r.closed r.result e)

serve_stored-IsStore :
    (root : Text) (disk : Disk) (c : Cache Text FileCache) (r : Received)
    → IsStore root c
    → (c' : Cache Text FileCache) × (a : Served) × (serve_stored root disk c r ≡ some (c', a))
      × IsStore root c'
      × IsServed root a
serve_stored-IsStore root disk c r s = elim (Option-cases (wanted root r)) [
  | inl e ↦ (
    c,
    serve root (λ q. sized none) r,
    unfold serve_stored in rw (e, serve_stored) refl,
    s,
    serve-IsServed root (λ q. sized none) r,
  )
  | inr (p, e) ↦
      let (c', found, h, w, cap, eq) = lookup-refines disk c (collapse p) s.valid in
      let inside = wanted-IsConfined root p r e in
      let confined : AreConfined root (values c'.cache_list) =
        subst (λ x. AreConfined root x.0) (sym eq)
          (look_up-AreConfined root (collapse p) c.capacity disk (values c.cache_list)
            (p, inside, refl) s.confined) in
      (
        c',
        serve root (λ q. sought_of found) r,
        serve_looked root r disk c c' p found e h,
        record { valid = w; confined = confined },
        serve-IsServed root (λ q. sought_of found) r,
      )
]

serve_all-IsStore :
    (root : Text) (l : List (Disk × Received)) (c : Cache Text FileCache)
    → IsStore root c
    → (c' : Cache Text FileCache) × (answers : List Served) × (serve_all root l c
        ≡ some (c', answers))
      × IsStore root c'
      × All (IsServed root) answers
      × (length answers ≡ length l)
unfolding serve_all
serve_all-IsStore root [] c s = (c, [], refl, s, tt, refl)
serve_all-IsStore root ((disk, r) ∷ l) c s =
    let (c1, a, e, s1, fine) = serve_stored-IsStore root disk c r s in
    let (c', rest, e', s', all, n) = serve_all-IsStore root l c1 s1 in
    (c', a ∷ rest, rw (e, serve_all) (rw (e', serve_all) refl), s', (fine, all), ap suc n)

-- The server of demo/uringhttp.cpp from its start, with a cache for one file or more, whatever its
-- clients send, in whatever order its answers look their files up, and whatever the file system gives
-- each time, also where file_size throws: each answer is defined, a head that it has ends in an empty
-- line, and a file that follows the head lies in the web root; the cache stays valid, and every file
-- that it holds lies in the web root.
pub serve_all-confined :
    (root : Text) (n : ℕ) (l : List (Disk × Received))
    → 0 < n
    → (c' : Cache Text FileCache) × (answers : List Served) × (serve_all root l (new_cache n)
        ≡ some (c', answers))
      × IsStore root c'
      × All (IsServed root) answers
      × (length answers ≡ length l)
serve_all-confined root n l h = serve_all-IsStore root l (new_cache n) (record {
  valid = new_cache-IsValid text_discrete path_of n h;
  confined = unfold new_cache in tt;
})
