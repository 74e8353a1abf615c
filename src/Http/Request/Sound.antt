-- ===== src/Http/Request/Sound.antt =====
-- The texts that parseResquest of src/http/Http.cpp accepts.
use coro_iomultiplex.Prelude.{
  suc, ◌+◌, ◌≡◌, refl, sym, ap, ◌∙◌, Text, codes, find, length, take, drop, All, List, ◌∷◌, ◌++◌,
  Option, none, some, arith, Option-cases, Bool-cases, inl, inr, value, unexpected, Expected,
  ErrorCode, ◌⊎◌, text_eq, text_eq_iff,
}
use mathlib.Core.List.{append_assoc}
use coro_iomultiplex.Http.Status.{
  Request, Method, name_of, ok, table_at, method_strings, check_version,
}
use coro_iomultiplex.Http.Request.{
  crlf, Parsed, accept, parse_headers, parse_first_line, parse_request, check_close,
  parse_request_line, parse_uri, parse_version, and_then, and_then?,
}
use coro_iomultiplex.Http.Request.Lines.{find-split}
use coro_iomultiplex.Http.Request.Outcomes.{
  http_version, close_step, and_then-value, and_then-unexpected,
}
use coro_iomultiplex.Http.Request.RoundTrip.{read_request}
use coro_iomultiplex.Http.Request.Headers.{headers_text, add_headers, request_line}
use coro_iomultiplex.Http.Request.Accepted.{IsGiven, header_loop_sound, table_at-name}

parse_uri_sound :
    (r : Request) (o : Option Method) (line view : Text) (p : Parsed)
    → parse_uri r o line view ≡ p
    → p.result ≡ value tt
    → (m : Method) × (uri : Text) × (o ≡ some m)
      × (line ≡ uri ++ (32 ∷ http_version))
      × (p ≡ accept (record r { method = m; uri = uri; version = http_version }) view)
unfolding parse_uri parse_version check_version
parse_uri_sound r none line view p e ok' = absurd (ground arith)
parse_uri_sound r (some m) line view p e ok' = elim (Option-cases (find (codes " ") line)) [
  | inl f ↦ absurd (ground arith)
  | inr (pos, f) ↦ elim (Bool-cases (text_eq (drop (pos + 1) line) http_version)) [
    | inr g ↦ absurd (ground arith)
    | inl g ↦
        let v : drop (pos + 1) line ≡ http_version = (text_eq_iff _ http_version).0 g in
        (
          m,
          take pos line,
          refl,
          find-split (codes " ") line pos f
              ∙ append_assoc (take pos line) (codes " ") (drop (pos + 1) line)
              ∙ ap (λ x. take pos line ++ (32 ∷ x)) v,
          ground arith,
        )
  ]
]

parse_request_line_sound :
    (r : Request) (line view : Text) (p : Parsed)
    → parse_request_line r line view ≡ p
    → p.result ≡ value tt
    → (m : Method) × (uri : Text) × (line ≡ request_line m uri)
      × (p ≡ accept (record r { method = m; uri = uri; version = http_version }) view)
unfolding parse_request_line
parse_request_line_sound r line view p e ok' = elim (Option-cases (find (codes " ") line)) [
  | inl f ↦ absurd (ground arith)
  | inr (pos, f) ↦
      let (m, uri, em, el, ep) =
        parse_uri_sound r (table_at (take pos line) method_strings) (drop (pos + 1) line) view p
          (ground arith) ok' in
      (
        m,
        uri,
        find-split (codes " ") line pos f
            ∙ append_assoc (take pos line) (codes " ") (drop (pos + 1) line)
            ∙ ap (λ x. x ++ (32 ∷ drop (pos + 1) line)) (table_at-name (take pos line) m em)
            ∙ ap (λ x. name_of m ++ (32 ∷ x)) el,
        ep,
      )
]

parse_first_line_sound :
    (r : Request) (message : Text) (p : Parsed)
    → parse_first_line r message ≡ p
    → p.result ≡ value tt
    → (m : Method) × (uri : Text) × (message ≡ request_line m uri ++ (crlf ++ p.view))
      × (p.request ≡ record r { status = ok; method = m; uri = uri; version = http_version })
unfolding parse_first_line
parse_first_line_sound r message p e ok' = elim (Option-cases (find crlf message)) [
  | inl f ↦ absurd (ground arith)
  | inr (pos, f) ↦
      let (m, uri, el, ep) =
        parse_request_line_sound (record r { status = ok }) (take pos message)
          (drop (pos + 2) message) p (ground arith) ok' in
      (
        m,
        uri,
        find-split crlf message pos f
            ∙ append_assoc (take pos message) crlf (drop (pos + 2) message)
            ∙ ap (λ x. x ++ (crlf ++ drop (pos + 2) message)) el
            ∙ ap (λ x. request_line m uri ++ (crlf ++ x)) (sym (ap (λ (q : Parsed). q.view) ep)),
        ap (λ (q : Parsed). q.request) ep,
      )
]

parse_headers_sound :
    (r : Request) (view : Text) (p : Parsed)
    → parse_headers r view ≡ some p
    → p.result ≡ value tt
    → (hs : List (Text × Text)) × (rest : Text) × All IsGiven hs
      × (view ≡ headers_text hs ++ (crlf ++ rest))
      × (p ≡ accept (record r { headers = add_headers hs r.headers }) (crlf ++ rest))
unfolding parse_headers
parse_headers_sound r view p = header_loop_sound (suc (length view)) r view p

check_close-value :
    (r : Request) (view : Text)
    → (check_close r view).result ≡ value tt
    → check_close r view ≡ accept r view
unfolding check_close
check_close-value r view h = ground arith

Expected-cases : (e : Expected (Unit {0})) → (e ≡ value tt) ⊎ ((c : ErrorCode) × (e ≡ unexpected c))
Expected-cases (value tt) = inl refl
Expected-cases (unexpected c) = inr (c, refl)

-- An accepted chain went through all its steps.
chain-value :
    (f p : Parsed)
    → and_then? (and_then f parse_headers) close_step ≡ some p
    → p.result ≡ value tt
    → (h : Parsed) × (f.result ≡ value tt)
      × (parse_headers f.request f.view ≡ some h)
      × (h.result ≡ value tt)
      × (p ≡ accept h.request h.view)
unfolding close_step
chain-value f p run ok' = elim (Expected-cases f.result) [
  | inr (c, e) ↦ absurd (
      ground (arith, and_then-unexpected f parse_headers c e, and_then-unexpected f close_step c e))
  | inl e ↦ elim (Option-cases (parse_headers f.request f.view)) [
    | inl none' ↦ absurd (ground (arith, and_then-value f parse_headers e))
    | inr (h, e') ↦ elim (Expected-cases h.result) [
      | inr (c, e'') ↦
          absurd (
            ground
              (arith, and_then-value f parse_headers e, and_then-unexpected h close_step c e''))
      | inl e'' ↦ (
        h,
        e,
        e',
        e'',
        ground (
          arith,
          and_then-value f parse_headers e,
          and_then-value h close_step e'',
          check_close-value h.request h.view,
        ),
      )
    ]
  ]
]

-- Whatever parseResquest accepts is a request as a client writes it, and is read as what it says:
-- a request line of the two methods, header lines with a key and a value, and the empty line.
-- What stands behind the empty line is left unread.
pub parse_request_sound :
    (r : Request) (message : Text) (p : Parsed)
    → parse_request r message ≡ some p
    → p.result ≡ value tt
    → (m : Method) × (uri : Text) × (hs : List (Text × Text)) × (rest : Text) × All IsGiven hs
      × (message ≡ request_line m uri ++ (crlf ++ (headers_text hs ++ (crlf ++ rest))))
      × (p ≡ accept (read_request r m uri hs) (crlf ++ rest))
unfolding parse_request close_step
parse_request_sound r message p run ok' =
    let f : Parsed = parse_first_line r message in
    let (h, f_ok, h_run, h_ok, ep) = chain-value f p run ok' in
    let (m, uri, em, ef) = parse_first_line_sound r message f refl f_ok in
    let (hs, rest, all, ev, eh) = parse_headers_sound f.request f.view h h_run h_ok in
    (
      m,
      uri,
      hs,
      rest,
      all,
      em ∙ ap (λ x. request_line m uri ++ (crlf ++ x)) ev,
      ep
          ∙ ap (λ (q : Parsed). accept q.request q.view) eh
          ∙ ap
              (λ (x : Request).
                accept (record x { headers = add_headers hs x.headers }) (crlf ++ rest))
              ef,
    )
