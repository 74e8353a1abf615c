-- ===== src/Server.antt =====
-- The server of demo/uringhttp.cpp: readRequest, responseHandler with its two send loops,
-- and clientHandle. What `co_await client->recv` and `co_await client->send` give is an argument.
pub mod Reads
pub mod Clients
pub mod Handle
pub mod Sessions
pub mod Stored
pub mod Confined
pub mod Stores
pub mod Sends
pub mod Runs
pub mod Answers
pub mod Named
pub mod Tests
use coro_iomultiplex.Prelude.{
  ℕ, zero, suc, ◌+◌, ltb, ◌==◌, Text, codes, text_eq, ends_with, length, lookup, take, drop, List,
  [], ◌∷◌, ◌++◌, Option, none, some, Bool, true, false, ◌&&◌, ◌||◌, if◌then◌else◌, Expected, value,
  unexpected, ErrorCode, same_error, same_category, http_error, decimal, assign,
}
use coro_iomultiplex.Http.Status.{
  make_error_code, HttpErrc, ok, not_found, bad_request, lenth_required, internal_server_error,
  not_implemented, http_version_not_supported, uncompleted_request, Request, new_request, get, head,
}
use coro_iomultiplex.Http.Socket.{connection_reset, try_again, no_message_available}
use coro_iomultiplex.Http.Receive.{blank_line, max_request}
use coro_iomultiplex.Http.Request.{Parsed, parse_request}
use coro_iomultiplex.Http.Request.{parse_request}
use coro_iomultiplex.Http.Response.{Response, returns, out_of_range, respond, serialize}
use coro_iomultiplex.Uring.{uring_code, sqe_busy}

-- What readRequest leaves in `client.closed`, and what it returns.
pub record Received : Type 0 where
  pub closed : Bool
  pub result : Expected Text

-- The peer is gone: what was read is the request if it is whole.
unfoldable pub read_end : Text → Received
read_end request = record {
  closed = true;
  result =
      if ends_with blank_line request
      then value request
      else unexpected (make_error_code bad_request);
}

-- What a round of readRequest does with what recv gave.
pub data Turn : Type 0 where
  goes_on : Text → Turn
  stops : Received → Turn

-- The body of the loop of readRequest.
unfoldable pub read_turn : Bool → Text → Expected Text → Turn
unfolding read_end
read_turn closed request (unexpected e) =
    if same_error e (uring_code sqe_busy)
    then goes_on request
    else (if same_error e connection_reset
        then stops (read_end request)
        else stops (record { closed = closed; result = unexpected e }))
read_turn closed request (value []) = stops (read_end request)
read_turn closed request (value (c ∷ s)) =
    if ltb max_request (length (c ∷ s) + length request)
    then stops (record { closed = closed; result = unexpected (make_error_code bad_request) })
    else (if ends_with blank_line (request ++ (c ∷ s))
        then stops (record { closed = closed; result = value (request ++ (c ∷ s)) })
        else goes_on (request ++ (c ∷ s)))

-- readRequest, from what was read; `none` still reads when the answers end.
unfoldable pub read_loop : Bool → Text → List (Expected Text) → Option Received
unfolding read_turn
read_loop closed request [] = none
read_loop closed request (answer ∷ answers) = elim (read_turn closed request answer) [
  | goes_on request' ↦ read_loop closed request' answers
  | stops r ↦ some r
]

-- Whether a send is tried again on the error.
unfoldable pub is_busy : ErrorCode → Bool
is_busy e =
    same_error e try_again
    || (same_error e no_message_available || same_error e (uring_code sqe_busy))

-- How a send loop ends, if it does.
pub data Sent : Type 0 where
  done gone still : Sent

-- Either send loop of responseHandler: the text that is left, or the count that is, starts anew
-- in each round.
unfoldable pub send_loop : Text → List (Expected ℕ) → Sent
unfolding is_busy
send_loop text [] = still
send_loop text (unexpected e ∷ answers) =
    let rest = send_loop text answers in if is_busy e then rest else gone
send_loop text (value n ∷ answers) =
    let rest = send_loop text answers in if ltb n (length text) then rest else done

-- responseHandler, as far as the answer's head: the response with the file's length, or with
-- NOT_FOUND. `size` is that of the cached file, if the cache gave one.
unfoldable pub with_file : Response → Option ℕ → Response
with_file r none = record r { status = not_found }
with_file r (some size) = record r {
  headers = assign (codes "Content-Length") (decimal size) r.headers;
}

-- responseHandler before the head is sent: the file is looked up for an OK response only.
unfoldable pub prepare : Response → Option ℕ → Response
unfolding with_file
prepare r file = elim r.status [ ok ↦ with_file r file | _ ↦ r ]

-- Whether the file follows the head.
unfoldable pub sends_body : Response → Bool
sends_body r = elim r.status [ ok ↦ elim r.method [ head ↦ false | get ↦ true ] | _ ↦ false ]

-- closeSession of clientHandle.
unfoldable pub closes : Request → Bool
closes r = elim r.status [
  | ok ↦ elim (lookup (codes "Connection") r.headers) [
    | some v ↦ text_eq v (codes "Close")
    | none ↦ false
  ]
  | _ ↦ false
]

-- The enumerator with a number.
unfoldable pub errc_at : ℕ → Option HttpErrc
errc_at n =
    if n == 200
    then some ok
    else (if n == 400
        then some bad_request
        else (if n == 404
            then some not_found
            else (if n == 411
                then some lenth_required
                else (if n == 500
                    then some internal_server_error
                    else (if n == 501
                        then some not_implemented
                        else (if n == 505
                            then some http_version_not_supported
                            else (if n == 600 then some uncompleted_request else none)))))))

-- A round of clientHandle with the responseHandler that it starts: the head that is sent, the file
-- that follows it, and whether the session ends; or the session ends without an answer; or the
-- handler throws. `unnamed` is a status that no enumerator names, or a parser that does not return.
pub data Served : Type 0 where
  ends throws unnamed : Served
  replies : Text → Option Text → Bool → Served

-- What the lookup of a file gives: its size, if the cache gives the file, or an exception.
pub data Sought : Type 0 where
  raised : Sought
  sized : Option ℕ → Sought

unfoldable pub is_ok : Response → Bool
is_ok r = elim r.status [ ok ↦ true | _ ↦ false ]

-- responseHandler from its lookup on, which it makes for an OK response only.
unfoldable pub reply : Response → Sought → Bool → Served
unfolding prepare sends_body is_ok
reply s raised close = if is_ok s then throws else replies (serialize s) none close
reply s (sized size) close =
    let s' = prepare s size in
    replies (serialize s') (if sends_body s' then some s'.uri else none) close

-- responseHandler up to its send loops; `file` is what the lookup of a path gives.
unfoldable pub answer : Text → (Text → Sought) → Request → Bool → Served
unfolding reply
answer root file request close = elim (respond request root) [
  | out_of_range ↦ throws
  | returns s ↦ reply s (file s.uri) close
]

-- clientHandle on what the parser leaves; what it returns is not looked at.
unfoldable pub serve_parsed : Text → (Text → Sought) → Bool → Option Parsed → Served
unfolding answer closes
serve_parsed root file closed none = unnamed
serve_parsed root file closed (some p) = answer root file p.request (closes p.request || closed)

-- clientHandle on an error of the HTTP category.
unfoldable pub serve_status : Text → (Text → Sought) → Bool → Option HttpErrc → Served
unfolding answer closes
serve_status root file closed none = unnamed
serve_status root file closed (some status) =
    let request = record new_request { status = status } in
    answer root file request (closes request || closed)

-- clientHandle on what readRequest left.
unfoldable pub serve : Text → (Text → Sought) → Received → Served
unfolding serve_parsed serve_status errc_at
serve root file r = elim r.result [
  | value message ↦ serve_parsed root file r.closed (parse_request new_request message)
  | unexpected e ↦
      if same_category e.category http_error
      then serve_status root file r.closed (errc_at e.number)
      else ends
]
