-- ===== src/Server/Confined.antt =====
-- The file cache of demo/uringhttp.cpp holds files of the web root only.
use coro_iomultiplex.Prelude.{
  ℕ, zero, suc, ◌-◌, ◌≡◌, refl, sym, if_pos, if_neg, ◌∙◌, subst, Text, List, [], ◌∷◌, Option, none,
  some, Bool, true, false, All, take, arith, Option-cases, inl, inr, value, unexpected,
  if◌then◌else◌, same_category, http_error, Expected,
}
use coro_iomultiplex.Http.Socket.{Answer, returned, failed}
use coro_iomultiplex.Http.Status.{ok, Request, new_request, HttpErrc}
use coro_iomultiplex.Http.Request.{Parsed, parse_request}
use coro_iomultiplex.Http.Paths.{join, is_absolute}
use coro_iomultiplex.Http.Paths.Pieces.{IsInside}
use coro_iomultiplex.Http.Response.{Built, returns, out_of_range, respond}
use coro_iomultiplex.Http.Response.Confined.{respond-confined}
use coro_iomultiplex.Lru.Nodes.{find_key, remove_key}
use coro_iomultiplex.Files.{FileCache}
use coro_iomultiplex.Files.Cached.{text_discrete, path_of}
use coro_iomultiplex.Files.Throws.{collapse, Disk, Looked, answered, lookup, gave}
use coro_iomultiplex.Files.Throws as Throws
use coro_iomultiplex.Files.Fetched.{look_up, fetched}
use coro_iomultiplex.Server.{Received, errc_at}
use coro_iomultiplex.Server.Stored.{wanted_by, wanted}

-- The path is the web root joined with a relative path that stays in it.
abbrev pub IsConfined : Text → Text → Type 0
IsConfined root path =
    (rel : Text) × (path ≡ join root rel) × (is_absolute rel ≡ false) × IsInside rel

wanted_by-IsConfined :
    (root p : Text) (request : Request) → wanted_by root request ≡ some p → IsConfined root p
unfolding wanted_by
wanted_by-IsConfined root p request h = go (respond request root) refl h
  where
    go :
        (b : Built)
        → respond request root ≡ b
        → elim b as (λ x. Option Text) [
          | out_of_range ↦ none
          | returns s ↦ elim s.status as (λ x. Option Text) [ ok ↦ some s.uri | _ ↦ none ]
        ]
          ≡ some p
        → IsConfined root p
    go out_of_range e k = absurd (ground arith)
    go (returns s) e k =
        let fine : s.status ≡ ok = ground arith in
        let (rel, at, plain, inside) = respond-confined request root s e fine in
        let same : s.uri ≡ p = ground arith in (rel, sym same ∙ at, plain, inside)

pub wanted-IsConfined : (root p : Text) (r : Received) → wanted root r ≡ some p → IsConfined root p
unfolding wanted
wanted-IsConfined root p r h = go r.result h
  where
    parsed :
        (q : Option Parsed)
        → elim q as (λ x. Option Text) [ none ↦ none | some x ↦ wanted_by root x.request ] ≡ some p
        → IsConfined root p
    parsed none k = absurd (ground arith)
    parsed (some x) k = wanted_by-IsConfined root p x.request k

    coded :
        (known : Bool) (status : Option HttpErrc)
        → (if known
            then elim status as (λ x. Option Text) [
              | none ↦ none
              | some e ↦ wanted_by root (record new_request { status = e })
            ]
            else none)
          ≡ some p
        → IsConfined root p
    coded true none k = absurd (ground arith)
    coded true (some e) k = wanted_by-IsConfined root p (record new_request { status = e }) k
    coded false status k = absurd (ground arith)

    go :
        (result : Expected Text)
        → elim result as (λ x. Option Text) [
          | value message ↦ elim (parse_request new_request message) [
            | none ↦ none
            | some x ↦ wanted_by root x.request
          ]
          | unexpected e ↦
              if same_category e.category http_error
              then elim (errc_at e.number) [
                | none ↦ none
                | some status ↦ wanted_by root (record new_request { status = status })
              ]
              else none
        ]
          ≡ some p
        → IsConfined root p
    go (value message) k = parsed (parse_request new_request message) k
    go (unexpected e) k = coded (same_category e.category http_error) (errc_at e.number) k

-- A path, with single slashes, of a file of the web root.
abbrev pub IsStored : Text → Text → Type 0
IsStored root key = (p : Text) × IsConfined root p × (key ≡ collapse p)

-- Every cached file is one of the web root.
abbrev pub AreConfined : Text → List FileCache → Type 0
AreConfined root = All (λ f. IsStored root (path_of f))

find_key-AreConfined :
    (root p : Text) (files : List FileCache) (f : FileCache)
    → AreConfined root files
    → find_key text_discrete path_of p files ≡ some f
    → IsStored root (path_of f)
unfolding find_key
find_key-AreConfined root p [] f all h = absurd (ground arith)
find_key-AreConfined root p (g ∷ files) f all h = elim (text_discrete p (path_of g)) [
  | yes e ↦ let here : g ≡ f = ground arith in subst (λ x. IsStored root (path_of x)) here all.0
  | no ne ↦ find_key-AreConfined root p files f all.1 (ground arith)
]

remove_key-AreConfined :
    (root p : Text) (files : List FileCache)
    → AreConfined root files
    → AreConfined root (remove_key text_discrete path_of p files)
unfolding remove_key
remove_key-AreConfined root p [] all = tt
remove_key-AreConfined root p (g ∷ files) all = elim (text_discrete p (path_of g)) [
  | yes e ↦
      subst (AreConfined root)
        (sym (
          if_pos (text_discrete p (path_of g)) e files
            (g ∷ remove_key text_discrete path_of p files)))
        all.1
  | no ne ↦
      subst (AreConfined root)
        (sym (
          if_neg (text_discrete p (path_of g)) ne files
            (g ∷ remove_key text_discrete path_of p files)))
        (all.0, remove_key-AreConfined root p files all.1)
]

take-AreConfined :
    (root : Text) (n : ℕ) (files : List FileCache)
    → AreConfined root files
    → AreConfined root (take n files)
take-AreConfined root zero files all = tt
take-AreConfined root (suc n) [] all = tt
take-AreConfined root (suc n) (f ∷ files) all = (all.0, take-AreConfined root n files all.1)

-- The abstract cache behind a miss.
missed-AreConfined :
    (root p : Text) (capacity : ℕ) (disk : Disk) (files : List FileCache)
    → IsStored root p
    → AreConfined root files
    → find_key text_discrete path_of p files ≡ none
    → AreConfined root (look_up capacity disk p files).0
unfolding look_up
missed-AreConfined root p capacity disk files inside all miss =
    rw (miss, look_up) (go (disk.opens p) (disk.sizes p) (disk.maps p))
  where
    go :
        (a : Answer ℕ) (size : Option ℕ) (mapped : Bool)
        → AreConfined root
            (elim (fetched a size mapped p) as (λ x. List FileCache × Looked) [
              | gave none ↦ (files, answered none)
              | gave (some f) ↦ (f ∷ take (capacity - 1) files, answered (some f))
              | Throws.Built.threw r ↦ (files, Throws.Looked.threw r)
            ]).0
    go (failed errno) size mapped = all
    go (returned fd) none mapped = all
    go (returned fd) (some size) mapped = (inside, take-AreConfined root (capacity - 1) files all)

pub look_up-AreConfined :
    (root p : Text) (capacity : ℕ) (disk : Disk) (files : List FileCache)
    → IsStored root p
    → AreConfined root files
    → AreConfined root (look_up capacity disk p files).0
unfolding look_up
look_up-AreConfined root p capacity disk files inside all =
    elim (Option-cases (find_key text_discrete path_of p files)) [
      | inl miss ↦ missed-AreConfined root p capacity disk files inside all miss
      | inr (f, hit) ↦
          rw (hit, look_up)
            (find_key-AreConfined root p files f all hit, remove_key-AreConfined root p files all)
    ]
