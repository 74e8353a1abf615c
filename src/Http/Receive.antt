-- ===== src/Http/Receive.antt =====
-- httpRequest::readRequest of src/http/Http.cpp: the request is read from a non-blocking socket,
-- and what came so far is kept for the descriptor until the next call.
pub mod Buffers
pub mod Ends
pub mod Resume
pub mod Pieces
pub mod Tests
use coro_iomultiplex.Prelude.{
  ℕ, zero, suc, ◌+◌, ltb, Text, ends_with, length, List, [], ◌∷◌, ◌++◌, Option, none, some, Bool,
  true, false, ◌||◌, if◌then◌else◌, ℕ_discrete, Table, store, forget, Expected, value, unexpected,
  ErrorCode, same_error,
}
use coro_iomultiplex.Http.Status.{make_error_code, bad_request, uncompleted_request}
use coro_iomultiplex.Http.Socket.{socket_code, eof_error, try_again, would_block, Answer, read}

-- httpRequest::uncompletedRequests.
abbrev pub Buffers : Type 0
Buffers = Table ℕ Text

abbrev pub blank_line : Text
blank_line = 13 ∷ 10 ∷ 13 ∷ 10 ∷ []

abbrev pub max_request : ℕ
max_request = 4096

-- getBuffer: the text for the descriptor, which is empty and entered if there was none.
unfoldable pub get_buffer : Buffers → ℕ → Buffers × Text
get_buffer b fd = elim (b.entry fd) [
  | some message ↦ (b, message)
  | none ↦ (store ℕ_discrete fd [] b, [])
]

-- eraseBuffer.
unfoldable pub erase_buffer : Buffers → ℕ → Buffers
erase_buffer b fd = forget ℕ_discrete fd b

-- `socket.read(...).and_then(...).map(...)`: the message with what was read, or the error.
unfoldable pub read_more : Text → Expected Text → Expected Text
read_more message (unexpected e) = unexpected e
read_more message (value []) = unexpected (socket_code eof_error)
read_more message (value (c ∷ s)) =
    if ltb max_request (length (c ∷ s) + length message)
    then unexpected (make_error_code bad_request)
    else value (message ++ (c ∷ s))

-- What a call returns, and the buffers that it leaves.
pub record Received : Type 0 where
  pub buffers : Buffers
  pub result : Expected Text

-- The branches on an error.
unfoldable pub read_failed : Buffers → ℕ → Text → ErrorCode → Received
unfolding erase_buffer
read_failed b fd message e =
    if same_error e try_again || same_error e would_block
    then (if ends_with blank_line message
        then record { buffers = erase_buffer b fd; result = value message }
        else record { buffers = b; result = unexpected (make_error_code uncompleted_request) })
    else record { buffers = erase_buffer b fd; result = unexpected e }

-- The read loop, over the answers of the socket. The text is shared with the table, so what is
-- appended is there too. `none` is a loop that still reads when the answers end.
unfoldable pub read_loop : ℕ → Buffers → Text → List (Answer Text) → Option Received
unfolding read_failed
read_loop fd b message [] = none
read_loop fd b message (answer ∷ answers) = elim (read_more message (read (some fd) answer)) [
  | unexpected e ↦ some (read_failed b fd message e)
  | value message' ↦ read_loop fd (store ℕ_discrete fd message' b) message' answers
]

-- readRequest.
unfoldable pub read_request : Buffers → ℕ → List (Answer Text) → Option Received
unfolding get_buffer
read_request b fd answers = let (b', message) = get_buffer b fd in read_loop fd b' message answers
