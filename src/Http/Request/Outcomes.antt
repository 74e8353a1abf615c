-- ===== src/Http/Request/Outcomes.antt =====
-- What parseResquest of src/http/Http.cpp returns.
use coro_iomultiplex.Prelude.{
  ◌≡◌, ◌≢◌, refl, ◌∙◌, Text, codes, find, Option, none, some, arith, Option-cases, inl, inr, value,
  unexpected, lookup, text_eq, text_eq_iff, Bool-cases, ErrorCode, socket_error, ap,
}
use coro_iomultiplex.Http.Status.{Request, ok, bad_request, make_error_code, check_version, Method}
use coro_iomultiplex.Http.Request.{
  crlf, Parsed, parse_headers, parse_first_line, parse_request, parse_request_line, parse_uri,
  parse_version, check_close, and_then, and_then?,
}
use coro_iomultiplex.Http.Request.Total.{Verdict, accepts, refuses, parse_headers-total}

abbrev pub http_version : Text
http_version = codes "HTTP/1.1"

-- parseFirstLine sets the version and leaves the headers, or refuses.
data Head (r : Request) (p : Parsed) : Type 0 where
  reads :
      p.result ≡ value tt
      → p.request.status ≡ r.status
      → p.request.version ≡ http_version
      → p.request.headers ≡ r.headers
      → Head r p
  fails :
      p.result ≡ unexpected (make_error_code bad_request)
      → p.request.status ≡ bad_request
      → Head r p

parse_version-Head :
    (r : Request) (method : Method) (uri version view : Text)
    → Head r (parse_version r method uri version view)
unfolding parse_version check_version
parse_version-Head r method uri version view = elim (Bool-cases (check_version version)) [
  | inl e ↦ rw e (reads refl refl ((text_eq_iff version http_version).0 e) refl)
  | inr e ↦ rw e (fails refl refl)
]

parse_uri-Head :
    (r : Request) (method : Option Method) (line view : Text)
    → Head r (parse_uri r method line view)
unfolding parse_uri
parse_uri-Head r none line view = fails refl refl
parse_uri-Head r (some method) line view = elim (Option-cases (find (codes " ") line)) [
  | inl e ↦ rw (e, parse_uri) (fails refl refl)
  | inr (pos, e) ↦ rw (e, parse_uri) (parse_version-Head r method _ _ view)
]

parse_request_line-Head : (r : Request) (line view : Text) → Head r (parse_request_line r line view)
unfolding parse_request_line
parse_request_line-Head r line view = elim (Option-cases (find (codes " ") line)) [
  | inl e ↦ rw (e, parse_request_line) (fails refl refl)
  | inr (pos, e) ↦ rw (e, parse_request_line) (parse_uri-Head r _ _ view)
]

parse_first_line-Head :
    (r : Request) (view : Text) → Head (record r { status = ok }) (parse_first_line r view)
unfolding parse_first_line
parse_first_line-Head r view = elim (Option-cases (find crlf view)) [
  | inl e ↦ rw (e, parse_first_line) (fails refl refl)
  | inr (pos, e) ↦ rw (e, parse_first_line) (parse_request_line-Head (record r { status = ok }) _ _)
]

abbrev pub end_of_file : ErrorCode
end_of_file = record { number = 5; category = socket_error }

-- The three ends of parseResquest.
pub data Outcome (p : Parsed) : Type 0 where
  parsed :
      p.result ≡ value tt
      → p.request.status ≡ ok
      → p.request.version ≡ http_version
      → lookup (codes "Connection") p.request.headers ≢ some (codes "close")
      → Outcome p
  closing :
      p.result ≡ unexpected end_of_file
      → p.request.status ≡ ok
      → p.request.version ≡ http_version
      → lookup (codes "Connection") p.request.headers ≡ some (codes "close")
      → Outcome p
  malformed :
      p.result ≡ unexpected (make_error_code bad_request)
      → p.request.status ≡ bad_request
      → Outcome p

check_close-Outcome :
    (r : Request) (view : Text)
    → r.status ≡ ok
    → r.version ≡ http_version
    → Outcome (check_close r view)
unfolding check_close
check_close-Outcome r view s v = elim (Option-cases (lookup (codes "Connection") r.headers)) [
  | inl e ↦ rw (e, check_close) (parsed refl s v (λ h. cc))
  | inr (c, e) ↦ elim (Bool-cases (text_eq c (codes "close"))) [
    | inl close ↦
        rw (e, check_close)
          (rw close (closing refl s v (e ∙ ap some ((text_eq_iff c (codes "close")).0 close))))
    | inr open' ↦
        rw (e, check_close)
          (rw open' (parsed refl s v (λ h. ground (arith, text_eq_iff c (codes "close")))))
  ]
]

pub and_then-value :
    (p : Parsed) (f : Request → Text → Option Parsed)
    → p.result ≡ value tt
    → and_then p f ≡ f p.request p.view
and_then-value p f h = ground arith

pub and_then-unexpected :
    (p : Parsed) (f : Request → Text → Option Parsed) (e : ErrorCode)
    → p.result ≡ unexpected e
    → and_then p f ≡ some p
and_then-unexpected p f e h = ground arith

-- The two later steps of the chain, after a first line.
unfoldable pub close_step : Request → Text → Option Parsed
close_step r view = some (check_close r view)

headers-Outcome :
    (r : Request) (p : Parsed)
    → r.status ≡ ok
    → r.version ≡ http_version
    → Verdict r p
    → (q : Parsed) × (and_then p close_step ≡ some q) × Outcome q
unfolding close_step
headers-Outcome r p s v (accepts a b c) = (
  check_close p.request p.view,
  and_then-value p close_step a,
  check_close-Outcome p.request p.view (b ∙ s) (c ∙ v),
)
headers-Outcome r p s v (refuses a b) = (p, and_then-unexpected p close_step _ a, malformed a b)

first_line-Outcome :
    (r : Request) (p : Parsed)
    → r.status ≡ ok
    → Head r p
    → (q : Parsed) × (and_then? (and_then p parse_headers) close_step ≡ some q) × Outcome q
first_line-Outcome r p s (reads a b c d) =
    let (h, run, verdict) = parse_headers-total p.request p.view in
    let (q, close, outcome) = headers-Outcome p.request h (b ∙ s) c verdict in
    (q, ap (λ x. and_then? x close_step) (and_then-value p parse_headers a ∙ run) ∙ close, outcome)
first_line-Outcome r p s (fails a b) = (
  p,
  ap (λ x. and_then? x close_step) (and_then-unexpected p parse_headers _ a)
      ∙ and_then-unexpected p close_step _ a,
  malformed a b,
)

-- parseResquest returns on every text, in one of three ways. It accepts, with status OK, version
-- HTTP/1.1 and no `Connection` header that is exactly "close"; it reports an end of file, with
-- that header; or it refuses with BAD_REQUEST, and the status says so too.
pub parse_request-Outcome :
    (r : Request) (message : Text) → (p : Parsed) × (parse_request r message ≡ some p) × Outcome p
unfolding parse_request close_step
parse_request-Outcome r message =
    first_line-Outcome (record r { status = ok }) (parse_first_line r message) refl
      (parse_first_line-Head r message)
