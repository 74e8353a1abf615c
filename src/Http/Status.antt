-- ===== src/Http/Status.antt =====
-- The status codes of include/http/Http.hpp, their numbers, their messages, and what a message of
-- either direction is made of.
use coro_iomultiplex.Prelude.{
  ℕ, Text, codes, TextMap, Bool, List, [], ◌∷◌, Option, none, some, text_eq, is_some, ErrorCode,
  http_error, if◌then◌else◌,
}

-- enum class httpErrc; `LENTH_REQUIRED` is the source's spelling.
pub data HttpErrc : Type 0 where
  ok bad_request not_found lenth_required internal_server_error : HttpErrc
  not_implemented http_version_not_supported uncompleted_request : HttpErrc

-- static_cast<int>.
abbrev pub number_of : HttpErrc → ℕ
number_of ok = 200
number_of bad_request = 400
number_of not_found = 404
number_of lenth_required = 411
number_of internal_server_error = 500
number_of not_implemented = 501
number_of http_version_not_supported = 505
number_of uncompleted_request = 600

-- httpErrorCategory::message, on the enumerators.
abbrev pub message : HttpErrc → Text
message ok = codes "OK"
message bad_request = codes "Bad Request"
message not_found = codes "Not Found"
message lenth_required = codes "Length Required"
message internal_server_error = codes "Internal Server Error"
message not_implemented = codes "Not Implemented"
message http_version_not_supported = codes "HTTP Version Not Supported"
message uncompleted_request = codes "Uncompleted Request"

-- make_error_code(httpErrc).
abbrev pub make_error_code : HttpErrc → ErrorCode
make_error_code e = record { number = number_of e; category = http_error }

-- enum class httpMessage::method.
pub data Method : Type 0 where
  get head : Method

abbrev pub name_of : Method → Text
name_of get = codes "GET"
name_of head = codes "HEAD"

-- Lookup in one of the constant tables of the source.
unfoldable pub table_at {ℓ} : {A : Type ℓ} → Text → List (Text × A) → Option A
table_at k [] = none
table_at k ((j, a) ∷ m) = if text_eq k j then some a else table_at k m

-- httpMessage::methodStrings.
abbrev pub method_strings : List (Text × Method)
method_strings = (codes "GET", get) ∷ (codes "HEAD", head) ∷ []

-- httpRequest::checkMethod.
unfoldable pub check_method : Text → Bool
unfolding table_at
check_method method = is_some (table_at method method_strings)

-- httpRequest::checkVersion.
unfoldable pub check_version : Text → Bool
check_version version = text_eq version (codes "HTTP/1.1")

-- httpRequest with the fields of httpMessage; `completed` is never read.
pub record Request : Type 0 where
  pub method : Method
  pub version : Text
  pub headers : TextMap
  pub status : HttpErrc
  pub uri : Text

-- httpRequest's default member initialisers.
abbrev pub new_request : Request
new_request = record {
  method = head;
  version = codes "HTTP/1.1";
  headers = [];
  status = ok;
  uri = [];
}
