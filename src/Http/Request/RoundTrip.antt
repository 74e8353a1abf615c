-- ===== src/Http/Request/RoundTrip.antt =====
-- A request as a client writes it, and parseResquest of src/http/Http.cpp on it.
use coro_iomultiplex.Prelude.{
  ◌≡◌, ◌≢◌, sym, ap, ◌∙◌, Text, TextMap, codes, find, starts_with, All, All-append, List, [], ◌∷◌,
  ◌++◌, none, some, arith, take-append, drop-append, emplace, lookup, lookup-emplace_self,
  lookup-emplace_keep, text_eq, compare_text, text_eq_iff, Option-cases, inl, inr,
}
use mathlib.Core.List.{append_assoc, append-nil}
use coro_iomultiplex.Http.Status.{Request, Method, get, head, ok, table_at, check_version}
use coro_iomultiplex.Http.Request.{
  crlf, accept, parse_first_line, parse_request, check_close, parse_request_line, parse_uri,
  parse_version,
}
use coro_iomultiplex.Http.Request.Lines.{Lacks, find-crlf-append, find-byte-append}
use coro_iomultiplex.Http.Request.Outcomes.{http_version}
use coro_iomultiplex.Http.Request.Headers.{
  IsHeader, headers_text, add_headers, parse_headers-text, request_line,
}

-- What a client writes.
abbrev pub request_text : Method → Text → List (Text × Text) → Text
request_text m uri hs = request_line m uri ++ (crlf ++ (headers_text hs ++ crlf))

parse_uri-text :
    (r : Request) (m : Method) (uri view : Text)
    → Lacks 32 uri
    → parse_uri r (some m) (uri ++ (32 ∷ http_version)) view
      ≡ accept (record r { method = m; uri = uri; version = http_version }) view
unfolding parse_uri parse_version check_version text_eq compare_text
parse_uri-text r m uri view w = ground (
  arith,
  find-byte-append 32 uri http_version w,
  drop-append 1 uri (32 ∷ http_version),
  take-append uri (32 ∷ http_version),
)

parse_request_line-text :
    (r : Request) (m : Method) (uri view : Text)
    → Lacks 32 uri
    → parse_request_line r (request_line m uri) view
      ≡ accept (record r { method = m; uri = uri; version = http_version }) view
unfolding parse_request_line find starts_with table_at text_eq compare_text
parse_request_line-text r get uri view w = parse_uri-text r get uri view w
parse_request_line-text r head uri view w = parse_uri-text r head uri view w

request_line-Lacks : (m : Method) (uri : Text) → Lacks 13 uri → Lacks 13 (request_line m uri)
request_line-Lacks get uri w =
    All-append _ (codes "GET ") (uri ++ (32 ∷ http_version)) (omega arith)
      (All-append _ uri (32 ∷ http_version) w (omega arith))
request_line-Lacks head uri w =
    All-append _ (codes "HEAD ") (uri ++ (32 ∷ http_version)) (omega arith)
      (All-append _ uri (32 ∷ http_version) w (omega arith))

parse_first_line-text :
    (r : Request) (m : Method) (uri view : Text)
    → Lacks 32 uri
    → Lacks 13 uri
    → parse_first_line r (request_line m uri ++ (crlf ++ view))
      ≡ accept (record r { status = ok; method = m; uri = uri; version = http_version }) view
unfolding parse_first_line
parse_first_line-text r m uri view w w' =
    rw (find-crlf-append line view (request_line-Lacks m uri w'), parse_first_line)
      (rw (take-append line (crlf ++ view), drop-append 2 line (crlf ++ view))
        (parse_request_line-text (record r { status = ok }) m uri view w))
  where
    line : Text
    line = request_line m uri

-- The request that the text stands for, on top of what `r` held.
abbrev pub read_request : Request → Method → Text → List (Text × Text) → Request
read_request r m uri hs = record r {
  status = ok;
  method = m;
  uri = uri;
  version = http_version;
  headers = add_headers hs r.headers;
}

parse_request-check :
    (r : Request) (m : Method) (uri : Text) (hs : List (Text × Text)) (rest : Text)
    → Lacks 32 uri
    → Lacks 13 uri
    → All IsHeader hs
    → parse_request r (request_text m uri hs ++ rest)
      ≡ some (check_close (read_request r m uri hs) (crlf ++ rest))
unfolding parse_request
parse_request-check r m uri hs rest w w' wh = rw regroup (
    rw (parse_first_line-text r m uri (headers_text hs ++ (crlf ++ rest)) w w') (
      rw (
        parse_headers-text (record r { status = ok; method = m; uri = uri; version = http_version })
          hs rest wh)))
  where
    regroup :
        request_text m uri hs ++ rest
        ≡ request_line m uri ++ (crlf ++ (headers_text hs ++ (crlf ++ rest)))
    regroup = simp append_assoc

check_close-accept :
    (r : Request) (view : Text)
    → lookup (codes "Connection") r.headers ≢ some (codes "close")
    → check_close r view ≡ accept r view
unfolding check_close
check_close-accept r view h = elim (Option-cases (lookup (codes "Connection") r.headers)) [
  | inl e ↦ rw (e, check_close)
  | inr (v, e) ↦ ground (arith, text_eq_iff v (codes "close"))
]

-- What stands behind a request is left unread.
pub parse_request-text_rest :
    (r : Request) (m : Method) (uri : Text) (hs : List (Text × Text)) (rest : Text)
    → Lacks 32 uri
    → Lacks 13 uri
    → All IsHeader hs
    → lookup (codes "Connection") (add_headers hs r.headers) ≢ some (codes "close")
    → parse_request r (request_text m uri hs ++ rest)
      ≡ some (accept (read_request r m uri hs) (crlf ++ rest))
parse_request-text_rest r m uri hs rest w w' wh open' =
    parse_request-check r m uri hs rest w w' wh
    ∙ ap some (check_close-accept (read_request r m uri hs) (crlf ++ rest) open')

-- A request that is written as the standard says is read back: method, target, version and
-- headers, where the first of several headers with one key counts; unless the `Connection` header
-- is exactly "close". The target has no space and no carriage return, and each header has a key
-- with no colon, a value, and no carriage return.
pub parse_request-text :
    (r : Request) (m : Method) (uri : Text) (hs : List (Text × Text))
    → Lacks 32 uri
    → Lacks 13 uri
    → All IsHeader hs
    → lookup (codes "Connection") (add_headers hs r.headers) ≢ some (codes "close")
    → parse_request r (request_text m uri hs) ≡ some (accept (read_request r m uri hs) crlf)
parse_request-text r m uri hs w w' wh open' =
    ap (parse_request r) (sym (append-nil (request_text m uri hs)))
    ∙ parse_request-text_rest r m uri hs [] w w' wh open'

-- A key that is there keeps its value through all later headers.
lookup-add_headers :
    (k v : Text) (hs : List (Text × Text)) (m : TextMap)
    → lookup k m ≡ some v
    → lookup k (add_headers hs m) ≡ some v
lookup-add_headers k v [] m e = e
lookup-add_headers k v (h ∷ hs) m e =
    lookup-add_headers k v hs (emplace h.0 h.1 m) (lookup-emplace_keep k v h.0 h.1 m e)

abbrev pub spaced_close : Text × Text
spaced_close = (codes "Connection", codes " close")

spaced_close-IsHeader : IsHeader spaced_close
spaced_close-IsHeader = record {
  key_given = λ e. cc;
  key_plain = omega arith;
  key_line = omega arith;
  value_given = λ e. cc;
  value_line = omega arith;
}

-- The value of a header keeps the space behind its colon. So a request whose first header is
-- written `Connection: close` is not taken for one that closes: it is accepted like any other.
pub parse_request-spaced_close :
    (r : Request) (m : Method) (uri : Text) (hs : List (Text × Text))
    → Lacks 32 uri
    → Lacks 13 uri
    → All IsHeader hs
    → lookup (codes "Connection") r.headers ≡ none
    → parse_request r (request_text m uri (spaced_close ∷ hs))
      ≡ some (accept (read_request r m uri (spaced_close ∷ hs)) crlf)
parse_request-spaced_close r m uri hs w w' wh new =
    parse_request-text r m uri (spaced_close ∷ hs) w w' (spaced_close-IsHeader, wh)
      (λ e. cc (sym (lookup-add_headers key _ hs _ stored) ∙ e))
  where
    key : Text
    key = codes "Connection"

    stored : lookup key (emplace key (codes " close") r.headers) ≡ some (codes " close")
    stored = rw (lookup-emplace_self key (codes " close") r.headers, new)
