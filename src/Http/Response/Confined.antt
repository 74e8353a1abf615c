-- ===== src/Http/Response/Confined.antt =====
-- Which files a response of src/http/Http.cpp can name.
use coro_iomultiplex.Prelude.{
  ◌≡◌, ◌≢◌, refl, sym, ap, ◌∙◌, subst, Text, TextMap, codes, find, ends_with, take, drop, [], ◌∷◌,
  false, arith, Bool-cases, Option-cases, inl, inr, take-append-drop, text_eq, compare_text,
}
use coro_iomultiplex.Http.Status.{ok, Request}
use coro_iomultiplex.Http.Paths.{
  pieces, first_piece, later_pieces, filename, is_empty, extension, name_extension, find_last,
  relative_path, join, is_absolute, has_dot_dot, dot_dot,
}
use coro_iomultiplex.Http.Paths.Pieces.{IsInside, has_dot_dot-All, pieces-cut, List-cases}
use coro_iomultiplex.Http.Paths.Join.{pieces-relative, pieces-join}
use coro_iomultiplex.Http.Response.{
  Response, returns, respond, respond_path, respond_file, respond_type, respond_accept,
  without_args, with_index, mime_type,
}

relative_path-relative : (s : Text) → is_absolute (relative_path s) ≡ false
unfolding relative_path
relative_path-relative [] = refl
relative_path-relative (c ∷ s) = ground (arith, relative_path-relative s)

name_extension-dot_dot : name_extension dot_dot ≡ []
unfolding name_extension find_last text_eq compare_text
name_extension-dot_dot = refl

respond_accept-ok :
    (q : TextMap) (root : Text) (r : Response) (mime : Text) (s : Response)
    → respond_accept q root r mime ≡ returns s
    → s.status ≡ ok
    → s.uri ≡ join root (relative_path r.uri)
unfolding respond_accept
respond_accept-ok q root r mime s e h = ground arith

respond_type-ok :
    (q : TextMap) (root : Text) (r : Response) (s : Response)
    → respond_type q root r ≡ returns s
    → s.status ≡ ok
    → (extension r.uri ≢ []) × (s.uri ≡ join root (relative_path r.uri))
respond_type-ok q root r s e h = elim (List-cases (extension r.uri)) [
  | inl e' ↦ absurd (unfold respond_type in ground arith)
  | inr (c, cs, e') ↦ (
    λ x. ground arith,
    unfold respond_type in respond_accept-ok q root r (mime_type cs) s (ground arith) h,
  )
]

respond_path-ok :
    (q : TextMap) (root : Text) (r : Response) (s : Response)
    → respond_path q root r ≡ returns s
    → s.status ≡ ok
    → let uri = without_args (with_index r.uri) in
      (has_dot_dot (pieces r.uri) ≡ false)
      × (extension uri ≢ [])
      × (s.uri ≡ join root (relative_path uri))
unfolding respond_path respond_file
respond_path-ok q root r s e h =
    let r' : Response = record r { uri = without_args (with_index r.uri) } in
    elim (Bool-cases (has_dot_dot (pieces r.uri))) [
      | inl e' ↦ absurd (ground arith)
      | inr e' ↦ elim (Bool-cases (is_empty (extension (with_index r.uri)))) [
        | inl e'' ↦ absurd (ground arith)
        | inr e'' ↦ let (a, b) = respond_type-ok q root r' s (ground arith) h in (e', a, b)
      ]
    ]

index-IsInside : IsInside (codes "index.html")
unfolding first_piece later_pieces
index-IsInside = (λ e. cc, tt)

with_index-IsInside : (uri : Text) → IsInside uri → IsInside (with_index uri)
unfolding with_index
with_index-IsInside uri h = elim (Bool-cases (ends_with (codes "/") uri)) [
  | inl e ↦ rw e (pieces-join (λ x. x ≢ dot_dot) uri (codes "index.html") h index-IsInside)
  | inr e ↦ rw e h
]

ne-dot_dot : (path : Text) → extension path ≢ [] → filename path ≢ dot_dot
ne-dot_dot path h e = h (ap name_extension e ∙ name_extension-dot_dot)

without_args-IsInside :
    (uri : Text) → IsInside uri → extension (without_args uri) ≢ [] → IsInside (without_args uri)
without_args-IsInside uri h ext = elim (Option-cases (find (codes "?") uri)) [
  | inl e ↦
      let whole : without_args uri ≡ uri = unfold without_args in ground arith in
      subst IsInside (sym whole) h
  | inr (n, e) ↦
      let cut : without_args uri ≡ take n uri = unfold without_args in ground arith in
      subst IsInside (sym cut) (
        pieces-cut (λ x. x ≢ dot_dot) (take n uri) (drop n uri)
          (subst IsInside (sym (take-append-drop n uri)) h)
          (ne-dot_dot (take n uri) (subst (λ x. extension x ≢ []) cut ext)))
]

-- The response before the first test.
abbrev pub start : Request → Response
start request = record {
  method = request.method;
  version = request.version;
  headers = [];
  status = ok;
  uri = request.uri;
}

respond-ok :
    (request : Request) (root : Text) (s : Response)
    → respond request root ≡ returns s
    → s.status ≡ ok
    → respond_path request.headers root (start request) ≡ returns s
unfolding respond
respond-ok request root s e h = ground arith

-- A response with status OK names the web root joined with a relative path, of which no piece is
-- `..`; also where the target has arguments behind a `?`, which are cut off after the check.
pub respond-confined :
    (request : Request) (root : Text) (s : Response)
    → respond request root ≡ returns s
    → s.status ≡ ok
    → (rel : Text) × (s.uri ≡ join root rel) × (is_absolute rel ≡ false) × IsInside rel
respond-confined request root s e h =
    let (clean, ext, eq) =
      respond_path-ok request.headers root (start request) s (respond-ok request root s e h) h in
    let uri : Text = without_args (with_index request.uri) in
    (
      relative_path uri,
      eq,
      relative_path-relative uri,
      pieces-relative (λ x. x ≢ dot_dot) uri
          (without_args-IsInside (with_index request.uri)
            (with_index-IsInside request.uri (has_dot_dot-All (pieces request.uri) clean)) ext),
    )
