-- ===== src/Http/Response/Tests.antt =====
-- The response of src/http/Http.cpp on concrete requests.
use coro_iomultiplex.Prelude.{
  ◌+◌, ◌≡◌, refl, arith, codes, Text, some, [], ◌∷◌, find, starts_with, ends_with, compare_text,
  text_eq, lookup, emplace, false, length, drop, map,
}
use coro_iomultiplex.Http.Status.{Request, new_request, get, table_at, ok}
use coro_iomultiplex.Http.Request.{crlf, accept, parse_headers}
use coro_iomultiplex.Http.Request.Headers.{IsHeader, add_headers}
use coro_iomultiplex.Http.Paths.{
  first_piece, later_pieces, find_last, name_extension, relative_path, join, has_dot_dot,
  is_absolute,
}
use coro_iomultiplex.Http.Paths.Pieces.{IsInside}
use coro_iomultiplex.Http.Response.{
  Response, returns, out_of_range, respond, respond_path, respond_file, respond_type,
  respond_accept, is_refused, mime_type, mime_wildcard, without_args, with_index, serialize,
  status_line,
}
use coro_iomultiplex.Http.Response.Confined.{respond-confined}
use coro_iomultiplex.Http.Response.Crash.{IsName, respond-throws}
use coro_iomultiplex.Http.Response.Accepts.{respond-any_accept}
use coro_iomultiplex.Http.Response.Serialize.{parse_headers-serialize, spaced}

program : Unit {0}
unfolding respond respond_path respond_file respond_type respond_accept is_refused mime_type
    mime_wildcard without_args with_index find starts_with ends_with text_eq compare_text lookup
    emplace table_at first_piece later_pieces find_last name_extension relative_path join
    has_dot_dot
program = tt

abbrev root : Text
root = codes "/srv"

abbrev request : Request
request = record new_request {
  method = get;
  uri = codes "/a.js?b";
  headers = (codes "Accept", codes "text/html") ∷ [];
}

abbrev response : Response
response = record {
  method = get;
  version = codes "HTTP/1.1";
  headers =
      (codes "Catch-Control", codes "no-cache")
      ∷ ((codes "Content-Type", codes "application/javascript") ∷ []);
  status = ok;
  uri = codes "/srv/a.js";
}

responds : respond request root ≡ returns response
unfolding program
responds = refl

respond-confined_example :
    (rel : Text) × (response.uri ≡ join root rel) × (is_absolute rel ≡ false) × IsInside rel
respond-confined_example = respond-confined request root response responds refl

a-IsName : IsName (codes "a")
a-IsName = record {
  given = λ e. cc;
  no_slash = omega arith;
  no_dot = omega arith;
  no_question = omega arith;
}

respond-throws_example : respond (record new_request { uri = codes "/a?.b" }) root ≡ out_of_range
respond-throws_example =
    respond-throws (record new_request { uri = codes "/a?.b" }) root (codes "a") (codes "b") refl
      refl a-IsName (omega arith) (omega arith)

respond-any_accept_example :
    respond (record request { headers = (codes "Accept", codes "image/png") ∷ [] }) root
    ≡ respond (record request { headers = (codes "Accept", codes "*/*") ∷ [] }) root
unfolding program
respond-any_accept_example =
    respond-any_accept request ((codes "Accept", codes "image/png") ∷ [])
      ((codes "Accept", codes "*/*") ∷ []) root (codes "image/png") (codes "*/*") refl refl

cache-IsHeader : IsHeader (spaced (codes "Catch-Control", codes "no-cache"))
cache-IsHeader = record {
  key_given = λ e. cc;
  key_plain = omega arith;
  key_line = omega arith;
  value_given = λ e. cc;
  value_line = omega arith;
}

type-IsHeader : IsHeader (spaced (codes "Content-Type", codes "application/javascript"))
type-IsHeader = record {
  key_given = λ e. cc;
  key_plain = omega arith;
  key_line = omega arith;
  value_given = λ e. cc;
  value_line = omega arith;
}

parse_headers-serialize_example :
    parse_headers new_request (drop (length (status_line response) + 2) (serialize response))
    ≡ some (
        accept (record new_request { headers = add_headers (map spaced response.headers) [] }) crlf)
parse_headers-serialize_example =
    parse_headers-serialize new_request response refl (cache-IsHeader, (type-IsHeader, tt))
