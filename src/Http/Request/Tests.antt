-- ===== src/Http/Request/Tests.antt =====
-- The parser of src/http/Http.cpp on concrete requests.
use coro_iomultiplex.Prelude.{
  ◌≡◌, refl, codes, Text, some, ◌++◌, List, [], ◌∷◌, find, starts_with, compare_text, text_eq,
  lookup, emplace,
}
use coro_iomultiplex.Http.Status.{new_request, get, Method, table_at, check_version}
use coro_iomultiplex.Http.Request.{
  crlf, Parsed, accept, parse_request, parse_headers, parse_first_line, header_line,
}
use coro_iomultiplex.Http.Request.RoundTrip.{request_text, read_request, parse_request-text}
use coro_iomultiplex.Http.Request.Headers.{IsHeader, headers_text, request_line}
use coro_iomultiplex.Http.Request.Sound.{parse_request_sound}
use coro_iomultiplex.Http.Request.Accepted.{IsGiven}
use coro_iomultiplex.Http.Request.Outcomes.{Outcome, parse_request-Outcome}
use coro_iomultiplex.Prelude.{arith, All}

program : Unit {0}
unfolding parse_request parse_headers parse_first_line header_line find starts_with text_eq
    compare_text lookup emplace table_at check_version
program = tt

abbrev message : Text
message = codes "GET / HTTP/1.1" ++ (crlf ++ (codes "Host: a" ++ (crlf ++ crlf)))

abbrev parsed_request : Parsed
parsed_request =
    accept
      (record new_request {
        method = get;
        uri = codes "/";
        headers = (codes "Host", codes " a") ∷ [];
      })
      crlf

parsed : parse_request new_request message ≡ some parsed_request
unfolding program
parsed = refl

host-IsHeader : IsHeader (codes "Host", codes "a")
host-IsHeader = record {
  key_given = λ e. cc;
  key_plain = omega arith;
  key_line = omega arith;
  value_given = λ e. cc;
  value_line = omega arith;
}

parse_request-text_example :
    parse_request new_request (request_text get (codes "/") ((codes "Host", codes "a") ∷ []))
    ≡ some (accept (read_request new_request get (codes "/") ((codes "Host", codes "a") ∷ [])) crlf)
unfolding program
parse_request-text_example =
    parse_request-text new_request get (codes "/") ((codes "Host", codes "a") ∷ []) (omega arith)
      (omega arith) (host-IsHeader, tt) (λ e. absurd (ground arith))

parse_request_sound_example :
    (m : Method) × (uri : Text) × (hs : List (Text × Text)) × (rest : Text) × All IsGiven hs
    × (message ≡ request_line m uri ++ (crlf ++ (headers_text hs ++ (crlf ++ rest))))
    × (parsed_request ≡ accept (read_request new_request m uri hs) (crlf ++ rest))
parse_request_sound_example = parse_request_sound new_request message parsed_request parsed refl

parse_request-Outcome_example :
    (p : Parsed) × (parse_request new_request message ≡ some p) × Outcome p
parse_request-Outcome_example = parse_request-Outcome new_request message
