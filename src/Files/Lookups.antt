-- ===== src/Files/Lookups.antt =====
-- The file cache of include/file/FileCache.hpp and include/utils/Lru.hpp over any lookups, also those
-- that throw.
use coro_iomultiplex.Prelude.{
  ℕ, ◌<◌, ◌≡◌, refl, sym, ap, ◌∙◌, subst, Text, List, [], ◌∷◌, Option, none, some, arith,
  Option-cases, ◌⊎◌, inl, inr,
}
use coro_iomultiplex.Lru.{Cache, new_cache}
use coro_iomultiplex.Lru.Abstract.{use_key}
use coro_iomultiplex.Lru.Nodes.{node_of, values, find_key}
use coro_iomultiplex.Lru.Hit.{Found, find_key-none, find-node}
use coro_iomultiplex.Lru.Invariant.{IsValid, IsBuilder}
use coro_iomultiplex.Lru.Refines.{get-refines}
use coro_iomultiplex.Lru.Runs.{new_cache-IsValid}
use coro_iomultiplex.Files.{FileCache, Released}
use coro_iomultiplex.Files.Cached.{text_discrete, path_of}
use coro_iomultiplex.Files.Throws.{
  Disk, Built, gave, try_open, try_build, given, Looked, answered, answer, collapse, lookup_key,
  lookups,
}
use coro_iomultiplex.Files.Throws as Throws
use coro_iomultiplex.Files.Fetched.{look_up, look_ups, try_build-fetched, fetched-path}

Built-cases :
    (b : Built)
    → ((r : Released) × (b ≡ Throws.Built.threw r)) ⊎ ((o : Option FileCache) × (b ≡ gave o))
Built-cases (Throws.Built.threw r) = inl (r, refl)
Built-cases (gave o) = inr (o, refl)

given-gave :
    (disk : Disk) (p : Text) (o : Option FileCache) → try_build disk p ≡ gave o → given disk p ≡ o
unfolding given
given-gave disk p o e = rw (e, given) refl

given-threw :
    (disk : Disk) (p : Text) (r : Released)
    → try_build disk p ≡ Throws.Built.threw r
    → given disk p ≡ none
unfolding given
given-threw disk p r e = rw (e, given) refl

given-IsBuilder : (disk : Disk) → IsBuilder text_discrete path_of (given disk)
given-IsBuilder disk p f h = elim (Built-cases (try_build disk p)) [
  | inl (r, e) ↦ cc (given-threw disk p r e, h)
  | inr (o, e) ↦
      fetched-path (disk.opens p) (disk.sizes p) (disk.maps p) p f
        (sym (try_build-fetched disk p) ∙ e ∙ ap gave (sym (given-gave disk p o e) ∙ h))
]

-- A lookup that does not throw is one of the abstract cache.
look_up-given :
    (capacity : ℕ) (disk : Disk) (p : Text) (o : Option FileCache) (files files' : List FileCache)
    (r : Option FileCache)
    → try_build disk p ≡ gave o
    → ◌≡◌ {A = List FileCache × Option FileCache}
        (files', r)
        (use_key text_discrete path_of capacity (given disk) p files)
    → ◌≡◌ {A = List FileCache × Looked} (files', answered r) (look_up capacity disk p files)
unfolding look_up use_key
look_up-given capacity disk p o files files' r e h =
    ground (arith, e, given-gave disk p o e, try_build-fetched disk p)

-- So is a hit, whatever the builder would do.
look_up-hit :
    (capacity : ℕ) (disk : Disk) (p : Text) (f : FileCache) (files files' : List FileCache)
    (r : Option FileCache)
    → find_key text_discrete path_of p files ≡ some f
    → ◌≡◌ {A = List FileCache × Option FileCache}
        (files', r)
        (use_key text_discrete path_of capacity (given disk) p files)
    → ◌≡◌ {A = List FileCache × Looked} (files', answered r) (look_up capacity disk p files)
unfolding look_up use_key
look_up-hit capacity disk p f files files' r found h = ground (arith, found)

look_up-threw :
    (capacity : ℕ) (disk : Disk) (p : Text) (r : Released) (files : List FileCache)
    → find_key text_discrete path_of p files ≡ none
    → try_build disk p ≡ Throws.Built.threw r
    → ◌≡◌ {A = List FileCache × Looked}
        (files, Throws.Looked.threw r)
        (look_up capacity disk p files)
unfolding look_up
look_up-threw capacity disk p r files miss e = ground (arith, try_build-fetched disk p)

-- What a lookup does, against the abstract cache.
abbrev pub Refined : Disk → Text → Cache Text FileCache → Type 0
Refined disk p c =
    (c' : Cache Text FileCache) × (r : Looked) × (lookup_key disk c p ≡ some (c', r))
    × IsValid text_discrete path_of c'
    × (c'.capacity ≡ c.capacity)
    × (◌≡◌ {A = List FileCache × Looked} (values c'.cache_list, r)
        (look_up c.capacity disk p (values c.cache_list)))

lookup-hit :
    (disk : Disk) (c : Cache Text FileCache) (p : Text) (i : ℕ)
    → IsValid text_discrete path_of c
    → c.index.entry p ≡ some i
    → Refined disk p c
unfolding lookup_key
lookup-hit disk c p i w e =
    let at : node_of text_discrete path_of p c.cache_list ≡ some i = sym (w.indexed p) ∙ e in
    let f : Found text_discrete path_of p i c.cache_list =
      find-node text_discrete path_of p i c.cache_list w.apart at in
    let (c', r, e', w', cap, eq) =
      get-refines text_discrete path_of (given disk) c p (given-IsBuilder disk) w in
    (
      c',
      answered r,
      rw (e, lookup_key) (ap answer e'),
      w',
      cap,
      look_up-hit c.capacity disk p f.val (values c.cache_list) (values c'.cache_list) r f.seen eq,
    )

lookup-miss :
    (disk : Disk) (c : Cache Text FileCache) (p : Text)
    → IsValid text_discrete path_of c
    → c.index.entry p ≡ none
    → Refined disk p c
unfolding lookup_key
lookup-miss disk c p w e = elim (Built-cases (try_build disk p)) [
  | inl (r, b) ↦
      let miss = find_key-none text_discrete path_of p c.cache_list (sym (w.indexed p) ∙ e) in
      (
        c,
        Throws.Looked.threw r,
        rw (e, lookup_key) (rw (b, lookup_key) refl),
        w,
        refl,
        look_up-threw c.capacity disk p r (values c.cache_list) miss b,
      )
  | inr (o, b) ↦
      let (c', r, e', w', cap, eq) =
        get-refines text_discrete path_of (given disk) c p (given-IsBuilder disk) w in
      (
        c',
        answered r,
        rw (e, lookup_key) (rw (b, lookup_key) (ap answer e')),
        w',
        cap,
        look_up-given c.capacity disk p o (values c.cache_list) (values c'.cache_list) r b eq,
      )
]

pub lookup-refines :
    (disk : Disk) (c : Cache Text FileCache) (p : Text)
    → IsValid text_discrete path_of c
    → Refined disk p c
lookup-refines disk c p w = elim (Option-cases (c.index.entry p)) [
  | inl e ↦ lookup-miss disk c p w e
  | inr (i, e) ↦ lookup-hit disk c p i w e
]

look_ups-cons :
    (capacity : ℕ) (disk : Disk) (p : Text) (l : List (Disk × Text))
    (files files' end' : List FileCache) (r : Looked) (rs : List Looked)
    → ◌≡◌ {A = List FileCache × Looked} (files', r) (look_up capacity disk (collapse p) files)
    → ◌≡◌ {A = List FileCache × List Looked} (end', rs) (look_ups capacity l files')
    → ◌≡◌ {A = List FileCache × List Looked}
        (end', r ∷ rs)
        (look_ups capacity ((disk, p) ∷ l) files)
unfolding look_ups
look_ups-cons capacity disk p l files files' end' r rs h k = rw (← h) (rw (← k) refl)

lookups-refine :
    (l : List (Disk × Text)) (c : Cache Text FileCache)
    → IsValid text_discrete path_of c
    → (c' : Cache Text FileCache) × (rs : List Looked) × (lookups l c ≡ some (c', rs))
      × IsValid text_discrete path_of c'
      × (◌≡◌ {A = List FileCache × List Looked}
          (values c'.cache_list, rs)
          (look_ups c.capacity l (values c.cache_list)))
unfolding lookups look_ups
lookups-refine [] c w = (c, [], refl, w, refl)
lookups-refine ((disk, p) ∷ l) c w =
    let (c1, r, e, w1, cap, eq) = lookup-refines disk c (collapse p) w in
    let (c', rs, e', w', eq') = lookups-refine l c1 w1 in
    (
      c',
      r ∷ rs,
      rw (e, lookups) (rw (e', lookups) refl),
      w',
      look_ups-cons c.capacity disk p l (values c.cache_list) (values c1.cache_list)
          (values c'.cache_list) r rs eq
          (subst
            (λ n.
              ◌≡◌ {A = List FileCache × List Looked} (values c'.cache_list, rs)
                (look_ups n l (values c1.cache_list)))
            cap eq'),
    )

-- A new file cache with room for one file or more, over any lookups, whatever the file system is at
-- each: every lookup is defined, the cache stays valid, and the answers and the cached files are those
-- of the abstract cache, whose keys are the paths up to repeated slashes: a file that is cached is given
-- without asking the system; one that opens and
-- has a size is cached, and the one that was used longest ago makes room; one that does not open is
-- nullptr; and where file_size throws, the exception leaves the cache as it is, and closes the
-- descriptor that open gave.
pub lookups-look_ups :
    (n : ℕ) (l : List (Disk × Text))
    → 0 < n
    → (c' : Cache Text FileCache) × (rs : List Looked) × (lookups l (new_cache n) ≡ some (c', rs))
      × IsValid text_discrete path_of c'
      × (◌≡◌ {A = List FileCache × List Looked} (values c'.cache_list, rs) (look_ups n l []))
unfolding new_cache
lookups-look_ups n l h =
    lookups-refine l (new_cache n) (new_cache-IsValid text_discrete path_of n h)
