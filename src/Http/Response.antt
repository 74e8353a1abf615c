-- ===== src/Http/Response.antt =====
-- The response to a request: the httpResponse constructor and serialize of src/http/Http.cpp.
pub mod Confined
pub mod Accepts
pub mod Crash
pub mod Serialize
pub mod Tests
use coro_iomultiplex.Prelude.{
  ℕ, zero, suc, ◌+◌, ◌/◌, ◌%◌, Text, TextMap, codes, find, ends_with, take, drop, lookup, emplace,
  List, [], ◌∷◌, ◌++◌, Option, none, some, Bool, true, false, ◌&&◌, if◌then◌else◌, decimal,
}
use mathlib.Core.Option.{get_or}
use coro_iomultiplex.Http.Status.{
  HttpErrc, ok, bad_request, not_found, lenth_required, internal_server_error, not_implemented,
  http_version_not_supported, uncompleted_request, number_of, message, Method, head, table_at,
  Request,
}
use coro_iomultiplex.Http.Paths.{pieces, is_empty, extension, relative_path, join, has_dot_dot}

-- httpResponse with the fields of httpMessage.
pub record Response : Type 0 where
  pub method : Method
  pub version : Text
  pub headers : TextMap
  pub status : HttpErrc
  pub uri : Text

-- httpResponse's default member initialisers.
abbrev pub new_response : Response
new_response = record {
  method = head;
  version = codes "HTTP/1.1";
  headers = [];
  status = ok;
  uri = [];
}

-- A constructor that returns, or that ends in std::out_of_range from `substr`.
pub data Built : Type 0 where
  returns : Response → Built
  out_of_range : Built

-- httpResponse::extensionMap.
abbrev pub extension_map : List (Text × Text)
extension_map =
    (codes "html", codes "text/html")
    ∷ (codes "txt", codes "text/plain")
    ∷ (codes "jpeg", codes "image/jpeg")
    ∷ (codes "jpg", codes "image/jpeg")
    ∷ (codes "png", codes "image/png")
    ∷ (codes "gif", codes "image/gif")
    ∷ (codes "json", codes "application/json")
    ∷ (codes "xml", codes "application/xml")
    ∷ (codes "bin", codes "application/octet-stream")
    ∷ (codes "css", codes "text/css")
    ∷ (codes "js", codes "application/javascript")
    ∷ (codes "webp", codes "image/webp")
    ∷ (codes "ico", codes "image/x-icon")
    ∷ (codes "svg", codes "image/svg+xml")
    ∷ (codes "pdf", codes "application/pdf")
    ∷ (codes "zip", codes "application/zip")
    ∷ (codes "woff", codes "application/font-woff")
    ∷ (codes "woff2", codes "application/font-woff2")
    ∷ (codes "pf_meta", codes "application/octet-stream")
    ∷ []

unfoldable pub mime_type : Text → Text
mime_type ext = get_or (table_at ext extension_map) (codes "application/octet-stream")

-- MIMEWildcardType; `substr(0, npos)` is the whole text.
unfoldable pub mime_wildcard : Text → Text
mime_wildcard mime = elim (find (codes "/") mime) [
  | none ↦ mime ++ codes "/*"
  | some n ↦ take n mime ++ codes "/*"
]

-- `!text.find(s)`: a position is false only if it is 0, and npos is true.
abbrev pub not_position : Option ℕ → Bool
not_position none = false
not_position (some zero) = true
not_position (some (suc n)) = false

-- The test on the Accept header, as it is written.
unfoldable pub is_refused : Text → Text → Bool
unfolding mime_wildcard
is_refused accepted mime =
    not_position (find (codes "*/*") accepted)
    && not_position (find (mime_wildcard mime) accepted)
    && not_position (find mime accepted)

-- From the look at `Accept` to the end: `q` holds the request's headers.
unfoldable pub respond_accept : TextMap → Text → Response → Text → Built
unfolding is_refused
respond_accept q root r mime = elim (lookup (codes "Accept") q) [
  | none ↦ returns (record r { status = bad_request })
  | some accepted ↦
      if is_refused accepted mime
      then returns (record r { status = not_found })
      else returns (record r {
        uri = join root (relative_path r.uri);
        headers =
            emplace (codes "Catch-Control") (codes "no-cache")
              (emplace (codes "Content-Type") mime r.headers);
      })
]

-- `uri.extension().string().substr(1)` throws on an empty text.
unfoldable pub respond_type : TextMap → Text → Response → Built
unfolding respond_accept mime_type
respond_type q root r = elim (extension r.uri) [
  | [] ↦ out_of_range
  | dot ∷ ext ↦ respond_accept q root r (mime_type ext)
]

-- What stands behind a `?` is dropped.
unfoldable pub without_args : Text → Text
without_args uri = elim (find (codes "?") uri) [ none ↦ uri | some n ↦ take n uri ]

unfoldable pub respond_file : TextMap → Text → Response → Built
unfolding respond_type without_args
respond_file q root r =
    if is_empty (extension r.uri)
    then returns (record r { status = not_found })
    else respond_type q root (record r { uri = without_args r.uri })

unfoldable pub with_index : Text → Text
with_index uri = if ends_with (codes "/") uri then join uri (codes "index.html") else uri

unfoldable pub respond_path : TextMap → Text → Response → Built
unfolding respond_file with_index
respond_path q root r =
    if has_dot_dot (pieces r.uri)
    then returns (record r { status = not_found })
    else respond_file q root (record r { uri = with_index r.uri })

-- The constructor. It moves the target out of the request, which the handler does not use again.
unfoldable pub respond : Request → Text → Built
unfolding respond_path
respond request root = elim request.status [
  | ok ↦ respond_path request.headers root (record {
    method = request.method;
    version = request.version;
    headers = [];
    status = ok;
    uri = request.uri;
  })
  | s ↦ returns (record new_response { status = s })
]

abbrev pub not_found_response : Text
not_found_response =
    codes "HTTP/1.1 404 Not Found"
    ++ (13 ∷ 10 ∷ codes "Content-Length: 0" ++ (13 ∷ 10 ∷ 13 ∷ 10 ∷ []))

abbrev pub bad_request_response : Text
bad_request_response =
    codes "HTTP/1.1 400 Bad Request"
    ++ (13 ∷ 10 ∷ codes "Content-Length: 0" ++ (13 ∷ 10 ∷ 13 ∷ 10 ∷ []))

abbrev pub not_implemented_response : Text
not_implemented_response =
    codes "HTTP/1.1 501 Not Implemented"
    ++ (13 ∷ 10 ∷ codes "Content-Length: 0" ++ (13 ∷ 10 ∷ 13 ∷ 10 ∷ []))

-- `format("{} {} {}\r\n", version, (int)status, message)`, without the line end.
abbrev pub status_line : Response → Text
status_line r = r.version ++ (32 ∷ decimal (number_of r.status) ++ (32 ∷ message r.status))

-- The loop over the headers.
unfoldable pub write_headers : TextMap → Text
write_headers [] = []
write_headers ((k, v) ∷ m) = k ++ (58 ∷ 32 ∷ v ++ (13 ∷ 10 ∷ write_headers m))

abbrev pub write_message : Response → Text
write_message r = status_line r ++ (13 ∷ 10 ∷ write_headers r.headers ++ (13 ∷ 10 ∷ []))

-- serialize.
unfoldable pub serialize : Response → Text
unfolding write_headers
serialize r = elim r.status [
  | not_found ↦ not_found_response
  | not_implemented ↦ not_implemented_response
  | internal_server_error ↦ bad_request_response
  | http_version_not_supported ↦ bad_request_response
  | lenth_required ↦ bad_request_response
  | bad_request ↦ bad_request_response
  | ok ↦ write_message r
  | uncompleted_request ↦ write_message r
]
