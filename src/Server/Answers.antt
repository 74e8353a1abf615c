-- ===== src/Server/Answers.antt =====
-- What the server of demo/uringhttp.cpp answers.
use coro_iomultiplex.Prelude.{
  ℕ, ◌≡◌, refl, arith, Text, ends_with, Option, none, some, Bool, true, false, ◌||◌, if◌then◌else◌,
  Bool-cases, inl, inr, value, unexpected, same_category, http_error,
}
use coro_iomultiplex.Http.Status.{HttpErrc, ok, Request, new_request}
use coro_iomultiplex.Http.Receive.{blank_line}
use coro_iomultiplex.Http.Request.{Parsed, parse_request}
use coro_iomultiplex.Http.Paths.{join, is_absolute}
use coro_iomultiplex.Http.Paths.Pieces.{IsInside}
use coro_iomultiplex.Http.Response.{Response, returns, out_of_range, respond}
use coro_iomultiplex.Http.Response.Confined.{respond-confined}
use coro_iomultiplex.Http.Response.Serialize.{serialize-ends}
use coro_iomultiplex.Server.{
  Received, Served, ends, throws, unnamed, replies, answer, serve, serve_parsed, serve_status,
  Sought, raised, sized, is_ok, reply, prepare, with_file, sends_body, errc_at, closes,
}

-- An answer has a head that ends in an empty line, and a file that follows it lies in the web root.
pub record IsReply (root head : Text) (body : Option Text) : Type 0 where
  pub head_ends : ends_with blank_line head ≡ true
  pub inside :
      (uri : Text)
      → body ≡ some uri
      → (rel : Text) × (uri ≡ join root rel) × (is_absolute rel ≡ false) × IsInside rel

unfoldable pub IsServed : Text → Served → Type 0
IsServed root (replies head body close) = IsReply root head body
IsServed root ends = Unit
IsServed root throws = Unit
IsServed root unnamed = Unit

-- A file is sent only for a response that was OK, from where the response says.
sends_body-prepare :
    (s : Response) (file : Option ℕ)
    → sends_body (prepare s file) ≡ true
    → (s.status ≡ ok) × ((prepare s file).uri ≡ s.uri)
unfolding sends_body prepare with_file
sends_body-prepare s none h = ground arith
sends_body-prepare s (some size) h = ground arith

IsInside-reply :
    (root : Text) (size : Option ℕ) (request : Request) (s : Response)
    → respond request root ≡ returns s
    → (uri : Text)
    → (if sends_body (prepare s size) then some (prepare s size).uri else none) ≡ some uri
    → (rel : Text) × (uri ≡ join root rel) × (is_absolute rel ≡ false) × IsInside rel
IsInside-reply root size request s e uri h = elim (Bool-cases (sends_body (prepare s size))) [
  | inr keeps ↦ absurd (ground arith)
  | inl sends ↦
      let (fine, same) = sends_body-prepare s size sends in
      let (rel, at, plain, inside) = respond-confined request root s e fine in
      (rel, ground (arith, same, at), plain, inside)
]

reply-IsServed :
    (root : Text) (request : Request) (s : Response) (file : Sought) (close : Bool)
    → respond request root ≡ returns s
    → IsServed root (reply s file close)
unfolding reply IsServed
reply-IsServed root request s raised close e = elim (Bool-cases (is_ok s)) [
  | inl fine ↦ rw (fine, reply) tt
  | inr other ↦
      rw (other, reply)
        (record { head_ends = serialize-ends s; inside = λ uri h. absurd (ground arith) })
]
reply-IsServed root request s (sized size) close e = record {
  head_ends = serialize-ends (prepare s size);
  inside = λ uri h. IsInside-reply root size request s e uri h;
}

answer-IsServed :
    (root : Text) (file : Text → Sought) (request : Request) (close : Bool)
    → IsServed root (answer root file request close)
unfolding answer IsServed
answer-IsServed root file request close =
    elim (respond request root)
        as (λ b.
          respond request root ≡ b
          → IsServed root (elim b as (λ x. Served) [
            | out_of_range ↦ throws
            | returns s ↦ reply s (file s.uri) close
          ])) [
            | out_of_range ↦ λ e. tt
            | returns s ↦ λ e. reply-IsServed root request s (file s.uri) close e
          ]
      refl

serve_parsed-IsServed :
    (root : Text) (file : Text → Sought) (closed : Bool) (p : Option Parsed)
    → IsServed root (serve_parsed root file closed p)
unfolding serve_parsed IsServed
serve_parsed-IsServed root file closed none = tt
serve_parsed-IsServed root file closed (some p) =
    answer-IsServed root file p.request (closes p.request || closed)

serve_status-IsServed :
    (root : Text) (file : Text → Sought) (closed : Bool) (status : Option HttpErrc)
    → IsServed root (serve_status root file closed status)
unfolding serve_status IsServed
serve_status-IsServed root file closed none = tt
serve_status-IsServed root file closed (some status) =
    let request : Request = record new_request { status = status } in
    answer-IsServed root file request (closes request || closed)

-- Whatever a client sends, and whatever files there are: an answer of the server has a head that
-- ends in an empty line, and a file that follows it lies in the web root.
pub serve-IsServed :
    (root : Text) (file : Text → Sought) (r : Received) → IsServed root (serve root file r)
unfolding serve IsServed
serve-IsServed root file r =
    elim r.result
      as (λ x. IsServed root (elim x as (λ y. Served) [
        | value message ↦ serve_parsed root file r.closed (parse_request new_request message)
        | unexpected e ↦
            if same_category e.category http_error
            then serve_status root file r.closed (errc_at e.number)
            else ends
      ])) [
        | value message ↦
            serve_parsed-IsServed root file r.closed (parse_request new_request message)
        | unexpected e ↦
            elim (same_category e.category http_error)
              as (λ b.
                IsServed root
                  (if b then serve_status root file r.closed (errc_at e.number) else ends)) [
                    | true ↦ serve_status-IsServed root file r.closed (errc_at e.number)
                    | false ↦ tt
                  ]
      ]
