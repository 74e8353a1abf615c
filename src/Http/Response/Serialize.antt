-- ===== src/Http/Response/Serialize.antt =====
-- The text of a response: serialize of src/http/Http.cpp.
use coro_iomultiplex.Prelude.{
  ◌+◌, ◌≡◌, refl, sym, ap, ◌∙◌, subst, Text, TextMap, ends_with, ends_with-append, drop,
  drop-append, length, All, [], ◌∷◌, ◌++◌, map, some, true, arith, text_eq, compare_text,
}
use mathlib.Core.List.{append_assoc}
use coro_iomultiplex.Http.Status.{ok, Request}
use coro_iomultiplex.Http.Request.{crlf, accept, parse_headers}
use coro_iomultiplex.Http.Request.Headers.{IsHeader, headers_text, add_headers, parse_headers-text}
use coro_iomultiplex.Http.Response.{
  Response, status_line, write_headers, write_message, serialize, not_found_response,
  bad_request_response, not_implemented_response,
}

-- Serialised headers have a space behind the colon.
abbrev pub spaced : Text × Text → Text × Text
spaced h = (h.0, 32 ∷ h.1)

write_headers-text : (m : TextMap) → write_headers m ≡ headers_text (map spaced m)
unfolding write_headers
write_headers-text [] = refl
write_headers-text ((k, v) ∷ m) =
    rw (write_headers-text m)
      (sym (append_assoc k (58 ∷ 32 ∷ v) (crlf ++ headers_text (map spaced m))))

-- The empty line.
abbrev pub blank_line : Text
blank_line = crlf ++ crlf

-- A block of lines ends in a line end, which may be the one in front of it.
lines-end : (m : TextMap) → (x : Text) × (crlf ++ write_headers m ≡ x ++ crlf)
unfolding write_headers
lines-end [] = ([], refl)
lines-end ((k, v) ∷ m) =
    let (x, e) = lines-end m in
    let line : Text = crlf ++ (k ++ (58 ∷ 32 ∷ v)) in
    (
      line ++ x,
      ap (λ y. crlf ++ y) (sym (append_assoc k (58 ∷ 32 ∷ v) (crlf ++ write_headers m)))
          ∙ ap (λ y. line ++ y) e
          ∙ sym (append_assoc line x crlf),
    )

write_message-ends : (r : Response) → ends_with blank_line (write_message r) ≡ true
write_message-ends r =
    let (x, e) = lines-end r.headers in
    let whole : write_message r ≡ (status_line r ++ x) ++ blank_line =
      ap (λ y. status_line r ++ (y ++ crlf)) e
      ∙ ap (λ y. status_line r ++ y) (append_assoc x crlf crlf)
      ∙ sym (append_assoc (status_line r) x blank_line) in
    subst (λ y. ends_with blank_line y ≡ true) (sym whole)
      (ends_with-append (status_line r ++ x) blank_line)

fixed_responses-end :
    (ends_with blank_line not_found_response ≡ true)
    × (ends_with blank_line bad_request_response ≡ true)
    × (ends_with blank_line not_implemented_response ≡ true)
unfolding ends_with text_eq compare_text
fixed_responses-end = (refl, refl, refl)

-- Every response ends in an empty line, whatever its status and its headers.
pub serialize-ends : (r : Response) → ends_with blank_line (serialize r) ≡ true
unfolding serialize
serialize-ends r =
    let (a, b, c) = fixed_responses-end in ground (arith, a, b, c, write_message-ends r)

-- The headers of a response can be read back: where its status is OK, parseHeaders on the text
-- behind the status line gives the headers of the response, each value with a space in front.
-- Each header has a key with no colon, and neither part has a carriage return.
pub parse_headers-serialize :
    (q : Request) (r : Response)
    → r.status ≡ ok
    → All IsHeader (map spaced r.headers)
    → parse_headers q (drop (length (status_line r) + 2) (serialize r))
      ≡ some (accept (record q { headers = add_headers (map spaced r.headers) q.headers }) crlf)
parse_headers-serialize q r s w =
    ap (λ x. parse_headers q (drop (length (status_line r) + 2) x)) whole
    ∙ ap (parse_headers q)
        (drop-append 2 (status_line r) (crlf ++ (headers_text (map spaced r.headers) ++ crlf)))
    ∙ parse_headers-text q (map spaced r.headers) [] w
  where
    plain : serialize r ≡ write_message r
    plain = unfold serialize in ground arith

    whole : serialize r ≡ status_line r ++ (crlf ++ (headers_text (map spaced r.headers) ++ crlf))
    whole = plain ∙ ap (λ x. status_line r ++ (crlf ++ (x ++ crlf))) (write_headers-text r.headers)
