-- ===== src/Http/Request/Headers.antt =====
-- The header lines of a request as a client writes them, and parseHeaders of src/http/Http.cpp on them.
use coro_iomultiplex.Prelude.{
  ℕ, zero, suc, ◌≤◌, ◌<◌, ◌≡◌, ◌≢◌, refl, ap, ◌∙◌, Text, TextMap, length, All, All-append, List, [],
  ◌∷◌, ◌++◌, some, arith, take-append, drop-append, length-append, emplace,
}
use mathlib.Core.List.{append_assoc}
use coro_iomultiplex.Http.Status.{Request, Method, name_of}
use coro_iomultiplex.Http.Request.{crlf, accept, header_line, header_loop, parse_headers}
use coro_iomultiplex.Http.Request.Lines.{Lacks, find-crlf-append, find-byte-append}
use coro_iomultiplex.Http.Request.Total.{header_loop_end, header_loop_next}
use coro_iomultiplex.Http.Request.Outcomes.{http_version}

-- A header line has a key with no colon, and neither part is empty or breaks the line.
pub record IsHeader (h : Text × Text) : Type 0 where
  pub key_given : h.0 ≢ []
  pub key_plain : Lacks 58 h.0
  pub key_line : Lacks 13 h.0
  pub value_given : h.1 ≢ []
  pub value_line : Lacks 13 h.1

abbrev pub header_text : Text × Text → Text
header_text h = h.0 ++ (58 ∷ h.1)

-- The header block up to, and without, the empty line.
abbrev pub headers_text : List (Text × Text) → Text
headers_text [] = []
headers_text (h ∷ hs) = header_text h ++ (crlf ++ headers_text hs)

-- The first of several headers with one key counts.
abbrev pub add_headers : List (Text × Text) → TextMap → TextMap
add_headers [] m = m
add_headers (h ∷ hs) m = add_headers hs (emplace h.0 h.1 m)

pub header_line-text :
    (r : Request) (h : Text × Text)
    → IsHeader h
    → header_line r (header_text h) ≡ some (record r { headers = emplace h.0 h.1 r.headers })
unfolding header_line
header_line-text r ([], v) w = absurd (w.key_given refl)
header_line-text r (c ∷ k, []) w = absurd (w.value_given refl)
header_line-text r (c ∷ k, d ∷ v) w = ground (
  arith,
  find-byte-append 58 (c ∷ k) (d ∷ v) w.key_plain,
  drop-append 1 (c ∷ k) (58 ∷ d ∷ v),
  take-append (c ∷ k) (58 ∷ d ∷ v),
)

pub header_text-Lacks : (h : Text × Text) → IsHeader h → Lacks 13 (header_text h)
header_text-Lacks h w = All-append _ h.0 (58 ∷ h.1) w.key_line (omega arith, w.value_line)

-- One round of the loop takes one header.
pub header_loop-round :
    (fuel : ℕ) (r : Request) (h : Text × Text) (more : Text)
    → IsHeader h
    → header_loop (suc fuel) r (header_text h ++ (crlf ++ more))
      ≡ header_loop fuel (record r { headers = emplace h.0 h.1 r.headers }) more
header_loop-round fuel r ([], v) more w = absurd (w.key_given refl)
header_loop-round fuel r (c ∷ k, v) more w =
    header_loop_next fuel r (line ++ (crlf ++ more)) (length (k ++ (58 ∷ v)))
      (record r { headers = emplace (c ∷ k) v r.headers })
      (find-crlf-append line more (header_text-Lacks (c ∷ k, v) w))
      (ap (header_line r) (take-append line (crlf ++ more)) ∙ header_line-text r (c ∷ k, v) w)
    ∙ ap (header_loop fuel (record r { headers = emplace (c ∷ k) v r.headers }))
        (drop-append 2 line (crlf ++ more))
  where
    line : Text
    line = header_text (c ∷ k, v)

pub header_loop-text :
    (fuel : ℕ) (r : Request) (hs : List (Text × Text)) (rest : Text)
    → All IsHeader hs
    → length hs < fuel
    → header_loop fuel r (headers_text hs ++ (crlf ++ rest))
      ≡ some (accept (record r { headers = add_headers hs r.headers }) (crlf ++ rest))
header_loop-text zero r hs rest w h = elim h [ ]
header_loop-text (suc fuel) r [] rest w h =
    header_loop_end fuel r (crlf ++ rest) (find-crlf-append [] rest tt)
header_loop-text (suc fuel) r (h ∷ hs) rest w lt =
    ap (header_loop (suc fuel) r)
      (append_assoc (header_text h) (crlf ++ headers_text hs) (crlf ++ rest))
    ∙ header_loop-round fuel r h (headers_text hs ++ (crlf ++ rest)) w.0
    ∙ header_loop-text fuel (record r { headers = emplace h.0 h.1 r.headers }) hs rest w.1
        (omega arith)

pub length-headers_text : (hs : List (Text × Text)) → length hs ≤ length (headers_text hs)
length-headers_text [] = omega arith
length-headers_text (h ∷ hs) = omega (
  arith,
  length-append (header_text h) (crlf ++ headers_text hs),
  length-append crlf (headers_text hs),
  length-headers_text hs,
)

pub parse_headers-text :
    (r : Request) (hs : List (Text × Text)) (rest : Text)
    → All IsHeader hs
    → parse_headers r (headers_text hs ++ (crlf ++ rest))
      ≡ some (accept (record r { headers = add_headers hs r.headers }) (crlf ++ rest))
unfolding parse_headers
parse_headers-text r hs rest w =
    header_loop-text (suc (length (headers_text hs ++ (crlf ++ rest)))) r hs rest w
      (omega (arith, length-append (headers_text hs) (crlf ++ rest), length-headers_text hs))

abbrev pub request_line : Method → Text → Text
request_line m uri = name_of m ++ (32 ∷ uri ++ (32 ∷ http_version))
