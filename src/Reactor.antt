-- ===== src/Reactor.antt =====
-- The server of demo/httptest.cpp on the reactor: responseHandler and httpHandle. What the calls of
-- send and open, and of readRequest, give is an argument.
pub mod Errors
pub mod Handled
pub mod Mappings
pub mod Sessions
pub mod Tests
use coro_iomultiplex.Prelude.{
  ℕ, zero, suc, ltb, Text, length, List, [], ◌∷◌, Option, none, some, Bool, true, false, ◌||◌,
  if◌then◌else◌, Expected, value, unexpected, ErrorCode, same_error,
}
use coro_iomultiplex.Http.Status.{
  make_error_code, uncompleted_request, internal_server_error, Request, new_request,
}
use coro_iomultiplex.Http.Socket.{
  socket_code, eof_error, errc, try_again, no_message_available, connection_reset, Answer,
}
use coro_iomultiplex.Http.Request.{Parsed, parse_request}
use coro_iomultiplex.Http.Receive.{Buffers, Received, read_request}
use coro_iomultiplex.Http.Response.{Response, returns, out_of_range, respond, serialize}
use coro_iomultiplex.Files.{RegularFile, new_file, Opened, open_file}
use coro_iomultiplex.Files.Throws.{Tried, try_open}
use coro_iomultiplex.Files.Throws
use coro_iomultiplex.Server.{Sent, done, gone, still, sends_body, closes}

-- Whether a send is tried again on the error.
unfoldable pub is_busy : ErrorCode → Bool
is_busy e = same_error e try_again || same_error e no_message_available

-- The loop that sends the head: `sendData` is the whole text in each round.
unfoldable pub send_head : Text → List (Expected ℕ) → Sent
unfolding is_busy
send_head text [] = still
send_head text (unexpected e ∷ answers) =
    let rest = send_head text answers in if is_busy e then rest else gone
send_head text (value n ∷ answers) =
    let rest = send_head text answers in if ltb n (length text) then rest else done

-- std::errc::too_many_files_open and too_many_files_open_in_system: EMFILE and ENFILE.
abbrev pub too_many_files_open : ErrorCode
too_many_files_open = errc 24

abbrev pub too_many_files_open_in_system : ErrorCode
too_many_files_open_in_system = errc 23

-- How the loop that opens the file ends, if it does; `threw` is a file_size that throws.
pub data Opening : Type 0 where
  opened : RegularFile → Opening
  refused threw waiting : Opening

-- The loop that opens the file; each answer is what open and file_size give, where no size is one
-- that throws.
unfoldable pub open_loop : RegularFile → List (Answer ℕ × Option ℕ) → Opening
unfolding try_open
open_loop f [] = waiting
open_loop f ((answer, size) ∷ answers) = elim (try_open answer size f) [
  | Throws.threw file closed ↦ threw
  | Throws.opened o ↦ elim o.result [
    | value u ↦ opened o.file
    | unexpected e ↦
        let rest = open_loop o.file answers in
        if same_error e too_many_files_open || same_error e too_many_files_open_in_system
        then rest
        else refused
  ]
]

-- How the loop that sends the file ends, and how many mappings of the file it leaves.
pub record Mapped : Type 0 where
  pub ends : Sent
  pub mappings : ℕ

-- One more mapping stays.
abbrev pub leaves : Mapped → Mapped
leaves m = record m { mappings = suc m.mappings }

-- The loop that sends the file: each round maps it, and sends it from its beginning.
unfoldable pub send_body : ℕ → List (Expected ℕ) → Mapped
unfolding is_busy
send_body size [] = record { ends = still; mappings = 0 }
send_body size (unexpected e ∷ answers) =
    let rest = send_body size answers in
    if is_busy e then leaves rest else record { ends = gone; mappings = 0 }
send_body size (value n ∷ answers) =
    let rest = send_body size answers in
    if ltb n size then leaves rest else record { ends = done; mappings = 0 }

-- What responseHandler came to: the constructor of httpResponse threw, or the head's loop ended or
-- waits without more to send, or the file was not opened or its size threw, or its loop was entered.
pub data Responded : Type 0 where
  throws : Responded
  head_only : Sent → Responded
  no_file : Text → Opening → Responded
  with_body : Text → RegularFile → Mapped → Responded

-- responseHandler behind the head; `opens` is what the opens of a path give.
unfoldable pub respond_body :
    Response → (Text → List (Answer ℕ × Option ℕ)) → List (Expected ℕ) → Responded
unfolding open_loop send_body
respond_body r opens bodies =
    if sends_body r
    then elim (open_loop new_file (opens r.uri)) [
      | opened f ↦ with_body r.uri f (send_body f.size bodies)
      | refused ↦ no_file r.uri refused
      | threw ↦ no_file r.uri threw
      | waiting ↦ no_file r.uri waiting
    ]
    else head_only done

-- responseHandler, on what its sends of the head, its opens, and its sends of the file give.
unfoldable pub response_handler :
    Text
    → Request
    → List (Expected ℕ)
    → (Text → List (Answer ℕ × Option ℕ))
    → List (Expected ℕ)
    → Responded
unfolding send_head respond_body
response_handler root request heads opens bodies = elim (respond request root) [
  | out_of_range ↦ throws
  | returns r ↦ elim (send_head (serialize r) heads) [
    | done ↦ respond_body r opens bodies
    | gone ↦ head_only gone
    | still ↦ head_only still
  ]
]

-- What the read loop of httpHandle does with the result of readRequest.
pub data Reading : Type 0 where
  ends waits broken : Reading
  got : Text → Reading

unfoldable pub reading : Expected Text → Reading
reading (value message) = got message
reading (unexpected e) =
    if same_error e (socket_code eof_error) || same_error e connection_reset
    then ends
    else (if same_error e (make_error_code uncompleted_request) then waits else broken)

-- What httpHandle did: the requests for which it started a responseHandler, in order, and whether
-- it has returned. `unread` is a parser that does not return.
pub record Session : Type 0 where
  pub requests : List Request
  pub ended : Bool
  pub unread : Bool

abbrev pub open_session : Session
open_session = record { requests = []; ended = false; unread = false }

-- A responseHandler for the request was started before the rest.
abbrev pub begun : Request → Session → Session
begun request s = record s { requests = request ∷ s.requests }

abbrev pub internal_error : Request
internal_error = record new_request { status = internal_server_error }

-- A responseHandler is started on what the parser leaves, and the session ends or goes on.
unfoldable pub handle_parsed : Option Parsed → Session → Session
unfolding closes
handle_parsed none rest = record { requests = []; ended = true; unread = true }
handle_parsed (some p) rest =
    if closes p.request
    then begun p.request (record { requests = []; ended = true; unread = false })
    else begun p.request rest

-- httpHandle on the results of readRequest.
unfoldable pub http_handle : List (Expected Text) → Session
unfolding reading handle_parsed
http_handle [] = open_session
http_handle (result ∷ results) = elim (reading result) [
  | ends ↦ record { requests = []; ended = true; unread = false }
  | waits ↦ http_handle results
  | broken ↦ begun internal_error (http_handle results)
  | got message ↦ handle_parsed (parse_request new_request message) (http_handle results)
]

-- The results of the calls of readRequest on a socket, each with the reads that it makes, up to a
-- call that still reads.
unfoldable pub results : Buffers → ℕ → List (List (Answer Text)) → List (Expected Text)
results b fd [] = []
results b fd (call ∷ calls) = elim (read_request b fd call) [
  | none ↦ []
  | some r ↦ r.result ∷ results r.buffers fd calls
]

-- httpHandle on a socket.
unfoldable pub session : Buffers → ℕ → List (List (Answer Text)) → Session
unfolding http_handle results
session b fd calls = http_handle (results b fd calls)
