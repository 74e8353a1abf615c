-- ===== src/Http/Request.antt =====
-- Parsing a request: parseFirstLine, parseHeaders and parseResquest of src/http/Http.cpp.
-- A std::string_view that the code shortens is the text that is left, returned beside the request.
pub mod Lines
pub mod Total
pub mod Headers
pub mod RoundTrip
pub mod Outcomes
pub mod Accepted
pub mod Sound
pub mod Tests
use coro_iomultiplex.Prelude.{
  ℕ, zero, suc, ◌+◌, Text, codes, compare_text, find, starts_with, text_eq, length, take, drop,
  lookup, emplace, Expected, value, unexpected, ErrorCode, socket_error, List, [], ◌∷◌, Option,
  none, some, Bool, true, false, if◌then◌else◌,
}
use coro_iomultiplex.Http.Status.{
  HttpErrc, ok, bad_request, make_error_code, Method, table_at, method_strings, check_version,
  Request,
}

abbrev pub crlf : Text
crlf = 13 ∷ 10 ∷ []

-- The state that a parser leaves: the request, the view, and what it returns.
pub record Parsed : Type 0 where
  pub request : Request
  pub view : Text
  pub result : Expected (Unit {0})

-- `status = BAD_REQUEST; return unexpected(BAD_REQUEST)`.
abbrev pub reject : Request → Text → Parsed
reject r view = record {
  request = record r { status = bad_request };
  view = view;
  result = unexpected (make_error_code bad_request);
}

abbrev pub accept : Request → Text → Parsed
accept r view = record { request = r; view = view; result = value tt }

-- The loop body of parseHeaders, on one line: the request with the header, or the refusal.
unfoldable pub header_line : Request → Text → Option Request
header_line r line = elim (find (codes ":") line) [
  | none ↦ none
  | some zero ↦ none
  | some (suc p) ↦ elim (drop (suc p + 1) line) [
    | [] ↦ none
    | c ∷ cs ↦ some (record r { headers = emplace (take (suc p) line) (c ∷ cs) r.headers })
  ]
]

-- The loop of parseHeaders, on fuel; `none` is fuel that ran out.
unfoldable pub header_loop : ℕ → Request → Text → Option Parsed
header_loop zero r view = none
header_loop (suc fuel) r view = elim (find crlf view) [
  | none ↦ some (reject r view)
  | some zero ↦ some (accept r view)
  | some (suc p) ↦ elim (header_line r (take (suc p) view)) [
    | none ↦ some (reject r (drop (suc p + 2) view))
    | some r' ↦ header_loop fuel r' (drop (suc p + 2) view)
  ]
]

-- parseHeaders: each round removes two bytes at least.
unfoldable pub parse_headers : Request → Text → Option Parsed
unfolding header_loop
parse_headers r view = header_loop (suc (length view)) r view

-- The end of parseFirstLine: the version is checked, and the fields are set.
unfoldable pub parse_version : Request → Method → Text → Text → Text → Parsed
parse_version r method uri version view =
    if check_version version
    then accept (record r { method = method; uri = uri; version = version }) view
    else reject r view

-- `method` is methodStrings.at(method), which checkMethod guards.
unfoldable pub parse_uri : Request → Option Method → Text → Text → Parsed
unfolding parse_version
parse_uri r none line view = reject r view
parse_uri r (some method) line view = elim (find (codes " ") line) [
  | none ↦ reject r view
  | some pos ↦ parse_version r method (take pos line) (drop (pos + 1) line) view
]

unfoldable pub parse_request_line : Request → Text → Text → Parsed
unfolding parse_uri
parse_request_line r line view = elim (find (codes " ") line) [
  | none ↦ reject r view
  | some pos ↦ parse_uri r (table_at (take pos line) method_strings) (drop (pos + 1) line) view
]

-- parseFirstLine.
unfoldable pub parse_first_line : Request → Text → Parsed
unfolding parse_request_line
parse_first_line r view = elim (find crlf view) [
  | none ↦ reject (record r { status = ok }) view
  | some pos ↦ parse_request_line (record r { status = ok }) (take pos view) (drop (pos + 2) view)
]

-- The last step of parseResquest: a client that closes is an end of file.
unfoldable pub check_close : Request → Text → Parsed
check_close r view = elim (lookup (codes "Connection") r.headers) [
  | none ↦ accept r view
  | some v ↦
      if text_eq v (codes "close")
      then record { request = r; view = view; result = unexpected eof }
      else accept r view
]
  where
    -- make_error_code(socketError::eofError)
    eof : ErrorCode
    eof = record { number = 5; category = socket_error }

-- `p.and_then(f)`.
abbrev pub and_then : Parsed → (Request → Text → Option Parsed) → Option Parsed
and_then p f = elim p.result [ value _ ↦ f p.request p.view | unexpected e ↦ some p ]

abbrev pub and_then? : Option Parsed → (Request → Text → Option Parsed) → Option Parsed
and_then? none f = none
and_then? (some p) f = and_then p f

-- parseResquest.
unfoldable pub parse_request : Request → Text → Option Parsed
unfolding check_close
parse_request r message =
    and_then? (and_then (parse_first_line r message) parse_headers)
      (λ r' view. some (check_close r' view))
