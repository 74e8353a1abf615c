-- ===== src/Server/Named.antt =====
-- The statuses that clientHandle of demo/uringhttp.cpp casts.
use coro_iomultiplex.Prelude.{
  ◌+◌, ◌≡◌, ◌≢◌, ◌⊎◌, refl, sym, ap, ◌∙◌, subst, ltb, arith, Text, ends_with, length, List, [], ◌∷◌,
  ◌++◌, Option, some, Bool, true, false, ◌||◌, if◌then◌else◌, inl, inr, Expected, value, unexpected,
  same_error, same_category, http_error,
}
use mathlib.Core.Option.{some-injective}
use coro_iomultiplex.Http.Status.{make_error_code, bad_request, Request, new_request}
use coro_iomultiplex.Http.Socket.{connection_reset}
use coro_iomultiplex.Http.Receive.{blank_line, max_request}
use coro_iomultiplex.Http.Request.Outcomes.{parse_request-Outcome}
use coro_iomultiplex.Http.Response.{Response, returns, out_of_range, respond}
use coro_iomultiplex.Uring.{uring_code, sqe_busy}
use coro_iomultiplex.Server.{
  Received, read_end, Turn, goes_on, stops, read_turn, read_loop, Served, ends, throws, unnamed,
  Sought, raised, sized, reply, answer, serve, serve_parsed, serve_status, errc_at, closes,
}

-- The ring gives no error of the HTTP category.
unfoldable pub IsSystem : Expected Text → Type 0
IsSystem (value s) = Unit
IsSystem (unexpected e) = same_category e.category http_error ≡ false

abbrev pub AreSystem : List (Expected Text) → Type 0
AreSystem [] = Unit
AreSystem (a ∷ answers) = IsSystem a × AreSystem answers

-- An error that readRequest returns is BAD_REQUEST or one of the ring's.
unfoldable pub IsOwn : Expected Text → Type 0
IsOwn (value s) = Unit
IsOwn (unexpected e) =
    (e ≡ make_error_code bad_request) ⊎ (same_category e.category http_error ≡ false)

unfoldable pub IsOwnTurn : Turn → Type 0
IsOwnTurn (goes_on request) = Unit
IsOwnTurn (stops r) = IsOwn r.result

read_end-IsOwn : (request : Text) → IsOwn (read_end request).result
unfolding read_end IsOwn
read_end-IsOwn request =
    elim (ends_with blank_line request)
      as (λ b. IsOwn (if b then value request else unexpected (make_error_code bad_request))) [
        | true ↦ tt
        | false ↦ inl refl
      ]

read_turn-IsOwnTurn :
    (closed : Bool) (request : Text) (a : Expected Text)
    → IsSystem a
    → IsOwnTurn (read_turn closed request a)
unfolding read_turn IsOwnTurn IsOwn IsSystem
read_turn-IsOwnTurn closed request (unexpected e) sys =
    elim (same_error e (uring_code sqe_busy))
      as (λ b. IsOwnTurn (
        if b
        then goes_on request
        else (if same_error e connection_reset
            then stops (read_end request)
            else stops (record { closed = closed; result = unexpected e })))) [
              | true ↦ tt
              | false ↦
                  elim (same_error e connection_reset)
                    as (λ b. IsOwnTurn (
                      if b
                      then stops (read_end request)
                      else stops (record { closed = closed; result = unexpected e }))) [
                        | true ↦ read_end-IsOwn request
                        | false ↦ inr sys
                      ]
            ]
read_turn-IsOwnTurn closed request (value []) sys = read_end-IsOwn request
read_turn-IsOwnTurn closed request (value (c ∷ s)) sys =
    elim (ltb max_request (length (c ∷ s) + length request))
      as (λ b. IsOwnTurn (
        if b
        then stops (record { closed = closed; result = unexpected (make_error_code bad_request) })
        else (if ends_with blank_line (request ++ (c ∷ s))
            then stops (record { closed = closed; result = value (request ++ (c ∷ s)) })
            else goes_on (request ++ (c ∷ s))))) [
              | true ↦ inl refl
              | false ↦
                  elim (ends_with blank_line (request ++ (c ∷ s)))
                    as (λ b. IsOwnTurn (
                      if b
                      then stops (record { closed = closed; result = value (request ++ (c ∷ s)) })
                      else goes_on (request ++ (c ∷ s)))) [ true ↦ tt | false ↦ tt ]
            ]

read_loop-IsOwn :
    (closed : Bool) (request : Text) (answers : List (Expected Text)) (r : Received)
    → AreSystem answers
    → read_loop closed request answers ≡ some r
    → IsOwn r.result
unfolding read_loop IsOwnTurn
read_loop-IsOwn closed request [] r sys h = absurd (ground arith)
read_loop-IsOwn closed request (a ∷ answers) r sys h =
    let again = λ (request' : Text). read_loop-IsOwn closed request' answers r sys.1 in
    elim (read_turn closed request a)
        as (λ t.
          IsOwnTurn t
          → ◌≡◌ {A = Option Received}
              (elim t as (λ x. Option Received) [
                | goes_on request' ↦ read_loop closed request' answers
                | stops r' ↦ some r'
              ])
              (some r)
          → IsOwn r.result) [
            | goes_on request' ↦ λ turn eq. again request' eq
            | stops r' ↦
                λ turn eq. subst (λ (q : Received). IsOwn q.result) (some-injective r' r eq) turn
          ]
      (read_turn-IsOwnTurn closed request a sys.0) h

reply_named : (s : Response) (file : Sought) (close : Bool) → reply s file close ≢ unnamed
unfolding reply
reply_named s raised close h = ground arith
reply_named s (sized size) close h = ground arith

answer_named :
    (root : Text) (file : Text → Sought) (request : Request) (close : Bool)
    → answer root file request close ≢ unnamed
unfolding answer
answer_named root file request close =
    elim (respond request root)
      as (λ b.
        ◌≢◌ {A = Served}
          (elim b as (λ x. Served) [
            | out_of_range ↦ throws
            | returns s ↦ reply s (file s.uri) close
          ])
          unnamed) [
            | out_of_range ↦ λ h. ground arith
            | returns s ↦ reply_named s (file s.uri) close
          ]

serve_own :
    (root : Text) (file : Text → Sought) (closed : Bool) (result : Expected Text)
    → IsOwn result
    → serve root file (record { closed = closed; result = result }) ≢ unnamed
unfolding serve serve_parsed serve_status IsOwn errc_at
serve_own root file closed (value message) own h =
    let (p, run, outcome) = parse_request-Outcome new_request message in
    answer_named root file p.request (closes p.request || closed)
      (sym (ap (serve_parsed root file closed) run) ∙ h)
serve_own root file closed (unexpected e) (inl own) h =
    answer_named root file (record new_request { status = bad_request })
      (closes (record new_request { status = bad_request }) || closed)
      (subst (λ d. serve root file (record { closed = closed; result = unexpected d }) ≡ unnamed)
        own h)
serve_own root file closed (unexpected e) (inr own) h =
    let ended : ends ≡ unnamed =
      sym (ap (λ b. if b then serve_status root file closed (errc_at e.number) else ends) own)
      ∙ h in
    absurd (ground arith)

-- Where the ring gives no error of the HTTP category, what readRequest returns is answered, or it
-- ends the session, or the handler throws: the parser returns, and the status has a name.
pub serve_named :
    (root : Text) (file : Text → Sought) (closed : Bool) (answers : List (Expected Text))
    (r : Received)
    → AreSystem answers
    → read_loop closed [] answers ≡ some r
    → serve root file r ≢ unnamed
serve_named root file closed answers r sys h =
    serve_own root file r.closed r.result (read_loop-IsOwn closed [] answers r sys h)
