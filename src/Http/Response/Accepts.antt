-- ===== src/Http/Response/Accepts.antt =====
-- The test on the Accept header in the httpResponse constructor of src/http/Http.cpp.
use coro_iomultiplex.Prelude.{
  ℕ, zero, suc, ◌≡◌, ◌≢◌, Text, TextMap, codes, find, starts_with, lookup, All, List, [], ◌∷◌, some,
  true, false, arith, Bool-cases, Option-cases, inl, inr, text_eq, subst,
}
use coro_iomultiplex.Http.Status.{Request, table_at}
use coro_iomultiplex.Http.Request.Lines.{find-starts_with}
use coro_iomultiplex.Http.Paths.{extension}
use coro_iomultiplex.Http.Paths.Pieces.{List-cases}
use coro_iomultiplex.Http.Response.Confined.{start}
use coro_iomultiplex.Http.Response.{
  Response, respond, respond_path, respond_file, respond_type, respond_accept, without_args,
  with_index, is_refused, mime_type, extension_map, not_position,
}

-- A MIME type begins with another byte than a star.
abbrev Plain : Text → Type 0
Plain [] = ⊥
Plain (c ∷ s) = c ≢ 42

table_at-All {κ} :
    (P : Text → Type κ) (k : Text) (m : List (Text × Text)) (a : Text)
    → All (λ e. P e.1) m
    → table_at k m ≡ some a
    → P a
unfolding table_at
table_at-All P k [] a h e = absurd (ground arith)
table_at-All P k ((j, b) ∷ m) a h e = elim (Bool-cases (text_eq k j)) [
  | inl same ↦ subst P (ground arith) h.0
  | inr other ↦ table_at-All P k m a h.1 (ground arith)
]

extension_map-Plain : All (λ e. Plain e.1) extension_map
extension_map-Plain = omega arith

mime_type-Plain : (ext : Text) → Plain (mime_type ext)
unfolding mime_type
mime_type-Plain ext = elim (Option-cases (table_at ext extension_map)) [
  | inl e ↦ rw (e, mime_type) (omega arith)
  | inr (mime, e) ↦
      rw (e, mime_type) (table_at-All Plain ext extension_map mime extension_map-Plain e)
]

starts_with-head : (c : ℕ) (p s : Text) → starts_with (c ∷ p) s ≡ true → (t : Text) × (s ≡ c ∷ t)
unfolding starts_with
starts_with-head c p [] h = absurd (ground arith)
starts_with-head c p (a ∷ s) h = (s, ground arith)

-- A text that stands at position 0 gives the first byte.
not_position-head :
    (c : ℕ) (p s : Text) → not_position (find (c ∷ p) s) ≡ true → (t : Text) × (s ≡ c ∷ t)
not_position-head c p s h = elim (Option-cases (find (c ∷ p) s)) [
  | inl e ↦ absurd (ground arith)
  | inr (zero, e) ↦ starts_with-head c p s (find-starts_with (c ∷ p) s 0 e)
  | inr (suc n, e) ↦ absurd (ground arith)
]

is_refused-false : (accepted mime : Text) → Plain mime → is_refused accepted mime ≡ false
is_refused-false accepted [] h = absurd h
is_refused-false accepted (c ∷ mime) h =
    elim (Bool-cases (not_position (find (codes "*/*") accepted))) [
      | inr e ↦ unfold is_refused in rw e
      | inl e ↦ elim (Bool-cases (not_position (find (c ∷ mime) accepted))) [
        | inr e' ↦ unfold is_refused in ground arith
        | inl e' ↦
            let (t, star) = not_position-head 42 (codes "/*") accepted e in
            let (t', other) = not_position-head c mime accepted e' in absurd (ground arith)
      ]
    ]

respond_accept-any :
    (q q' : TextMap) (root : Text) (r : Response) (mime v w : Text)
    → Plain mime
    → lookup (codes "Accept") q ≡ some v
    → lookup (codes "Accept") q' ≡ some w
    → respond_accept q root r mime ≡ respond_accept q' root r mime
unfolding respond_accept
respond_accept-any q q' root r mime v w h e e' =
    ground (arith, is_refused-false v mime h, is_refused-false w mime h)

respond_type-any :
    (q q' : TextMap) (root : Text) (r : Response) (v w : Text)
    → lookup (codes "Accept") q ≡ some v
    → lookup (codes "Accept") q' ≡ some w
    → respond_type q root r ≡ respond_type q' root r
unfolding respond_type
respond_type-any q q' root r v w e e' = elim (List-cases (extension r.uri)) [
  | inl h ↦ ground arith
  | inr (c, ext, h) ↦
      ground (arith, respond_accept-any q q' root r (mime_type ext) v w (mime_type-Plain ext) e e')
]

respond_path-any :
    (q q' : TextMap) (root : Text) (r : Response) (v w : Text)
    → lookup (codes "Accept") q ≡ some v
    → lookup (codes "Accept") q' ≡ some w
    → respond_path q root r ≡ respond_path q' root r
unfolding respond_path respond_file
respond_path-any q q' root r v w e e' =
    let r' : Response = record r { uri = without_args (with_index r.uri) } in
    rw (respond_type-any q q' root r' v w e e')

-- The response does not depend on what the Accept header says: two requests that differ in their
-- headers only, and both have an Accept header, get the same response.
pub respond-any_accept :
    (request : Request) (q q' : TextMap) (root v w : Text)
    → lookup (codes "Accept") q ≡ some v
    → lookup (codes "Accept") q' ≡ some w
    → respond (record request { headers = q }) root ≡ respond (record request { headers = q' }) root
unfolding respond
respond-any_accept request q q' root v w e e' =
    ground (arith, respond_path-any q q' root (start request) v w e e')
