-- ===== src/Reactor/Handled.antt =====
-- What responseHandler of demo/httptest.cpp sends.
use coro_iomultiplex.Prelude.{
  Option, ℕ, ◌≡◌, refl, Text, List, false, Bool-cases, inl, inr, Expected, arith,
}
use coro_iomultiplex.Http.Status.{ok, Request}
use coro_iomultiplex.Http.Socket.{Answer}
use coro_iomultiplex.Http.Paths.{join, is_absolute}
use coro_iomultiplex.Http.Paths.Pieces.{IsInside}
use coro_iomultiplex.Http.Response.{Response, returns, out_of_range, respond, serialize}
use coro_iomultiplex.Http.Response.Confined.{respond-confined}
use coro_iomultiplex.Files.{new_file}
use coro_iomultiplex.Server.{done, gone, still, sends_body}
use coro_iomultiplex.Reactor.{
  opened, refused, threw, waiting, open_loop, send_head, send_body, Responded, throws, head_only,
  no_file, with_body, respond_body, response_handler,
}

-- The path is the web root joined with a relative path that stays in it.
abbrev pub IsConfined : Text → Text → Type 0
IsConfined root path =
    (rel : Text) × (path ≡ join root rel) × (is_absolute rel ≡ false) × IsInside rel

-- A file is opened in the web root only; and the constructor throws for an OK request only.
unfoldable pub IsHandled : Text → Request → Responded → Type 0
IsHandled root request throws = request.status ≡ ok
IsHandled root request (head_only s) = Unit
IsHandled root request (no_file path o) = IsConfined root path
IsHandled root request (with_body path f m) = IsConfined root path

respond_body-IsHandled :
    (root : Text) (request : Request) (r : Response) (opens : Text → List (Answer ℕ × Option ℕ))
    (bodies : List (Expected ℕ))
    → respond request root ≡ returns r
    → IsHandled root request (respond_body r opens bodies)
unfolding respond_body IsHandled sends_body
respond_body-IsHandled root request r opens bodies e = elim (Bool-cases (sends_body r)) [
  | inr keeps ↦ rw (keeps, respond_body) tt
  | inl sends ↦
      let inside : IsConfined root r.uri = respond-confined request root r e (ground arith) in
      rw (sends, respond_body)
        (elim (open_loop new_file (opens r.uri))
          as (λ o. IsHandled root request (elim o as (λ x. Responded) [
            | opened f ↦ with_body r.uri f (send_body f.size bodies)
            | refused ↦ no_file r.uri refused
            | threw ↦ no_file r.uri threw
            | waiting ↦ no_file r.uri waiting
          ])) [ opened f ↦ inside | refused ↦ inside | threw ↦ inside | waiting ↦ inside ])
]

respond-throws_ok :
    (request : Request) (root : Text) → respond request root ≡ out_of_range → request.status ≡ ok
unfolding respond
respond-throws_ok request root h = ground arith

-- Whatever the sends and the opens give, a file that responseHandler tries to open lies in the web
-- root, and its constructor of httpResponse throws for an OK request only.
pub response_handler-IsHandled :
    (root : Text) (request : Request) (heads : List (Expected ℕ))
    (opens : Text → List (Answer ℕ × Option ℕ)) (bodies : List (Expected ℕ))
    → IsHandled root request (response_handler root request heads opens bodies)
unfolding response_handler IsHandled
response_handler-IsHandled root request heads opens bodies =
    elim (respond request root)
        as (λ b.
          respond request root ≡ b
          → IsHandled root request (elim b as (λ x. Responded) [
            | out_of_range ↦ throws
            | returns r ↦ elim (send_head (serialize r) heads) as (λ x. Responded) [
              | done ↦ respond_body r opens bodies
              | gone ↦ head_only gone
              | still ↦ head_only still
            ]
          ])) [
            | out_of_range ↦ λ e. respond-throws_ok request root e
            | returns r ↦ λ e.
                elim (send_head (serialize r) heads)
                  as (λ s. IsHandled root request (elim s as (λ x. Responded) [
                    | done ↦ respond_body r opens bodies
                    | gone ↦ head_only gone
                    | still ↦ head_only still
                  ])) [
                    | done ↦ respond_body-IsHandled root request r opens bodies e
                    | gone ↦ tt
                    | still ↦ tt
                  ]
          ]
      refl
