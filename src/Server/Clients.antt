-- ===== src/Server/Clients.antt =====
-- Requests as clients of demo/uringhttp.cpp and demo/httptest.cpp write them.
use coro_iomultiplex.Prelude.{
  ◌≡◌, ◌≢◌, refl, Text, codes, lookup, All, List, [], ◌++◌, some, false, text_eq_iff, Option-cases,
  inl, inr, arith,
}
use coro_iomultiplex.Http.Status.{Request, Method, new_request}
use coro_iomultiplex.Http.Request.{accept, crlf, parse_request}
use coro_iomultiplex.Http.Request.Lines.{Lacks}
use coro_iomultiplex.Http.Request.RoundTrip.{request_text, read_request, parse_request-text_rest}
use coro_iomultiplex.Http.Request.Headers.{IsHeader, add_headers}
use coro_iomultiplex.Server.{closes}

-- What a client asks for.
pub record ClientRequest : Type 0 where
  pub method : Method
  pub uri : Text
  pub headers : List (Text × Text)

abbrev pub text_of : ClientRequest → Text
text_of q = request_text q.method q.uri q.headers

-- The request that the text stands for.
abbrev pub request_of : ClientRequest → Request
request_of q = read_request new_request q.method q.uri q.headers

-- The request is written as the standard says, and its Connection header, if there is one, is none
-- of the two texts that the code compares with.
pub record IsWellFormed (q : ClientRequest) : Type 0 where
  pub uri_word : Lacks 32 q.uri
  pub uri_line : Lacks 13 q.uri
  pub are_headers : All IsHeader q.headers
  pub no_close : lookup (codes "Connection") (add_headers q.headers []) ≢ some (codes "close")
  pub keeps : lookup (codes "Connection") (add_headers q.headers []) ≢ some (codes "Close")

pub parse_request-text_of :
    (q : ClientRequest) (rest : Text)
    → IsWellFormed q
    → parse_request new_request (text_of q ++ rest) ≡ some (accept (request_of q) (crlf ++ rest))
parse_request-text_of q rest w =
    parse_request-text_rest new_request q.method q.uri q.headers rest w.uri_word w.uri_line
      w.are_headers w.no_close

pub closes-request_of : (q : ClientRequest) → IsWellFormed q → closes (request_of q) ≡ false
unfolding closes
closes-request_of q w =
    elim (Option-cases (lookup (codes "Connection") (add_headers q.headers []))) [
      | inl e ↦ rw (e, closes) refl
      | inr (v, e) ↦ rw (e, closes) (ground (arith, e, w.keeps, text_eq_iff v (codes "Close")))
    ]
