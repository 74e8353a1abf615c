-- ===== src/Echo.antt =====
-- The echo server of demo/epolltest.cpp: writer and echoHandle. What the calls of recv and send of
-- its sockets give is an argument. A size_t has 64 bits. That send takes the size as an int, which
-- matters from 2 ^ 31 bytes on, is not modelled.
pub mod Writer
pub mod Conserves
pub mod Tests
use coro_iomultiplex.Prelude.{
  size_sub, ℕ, ◌+◌, ◌-◌, ◌%◌, ◌^◌, leb, Text, length, List, [], ◌∷◌, ◌++◌, Bool, true, false, ◌||◌,
  if◌then◌else◌, Expected, value, unexpected, ErrorCode, same_error,
}
use coro_iomultiplex.Http.Socket.{socket_code, eof_error, try_again, would_block}

-- Whether a send is tried again on the error.
unfoldable pub is_busy : ErrorCode → Bool
is_busy e = same_error e try_again || same_error e would_block

-- How writer ends, if it does: all is written, or an error is reported.
pub data Wrote : Type 0 where
  finished lost waiting : Wrote

-- The loop of writer: `written` is 0 in each round, and `size` is what was not sent.
unfoldable pub write_loop : Text → ℕ → List (Expected ℕ) → Wrote
unfolding is_busy
write_loop buffer size [] = waiting
write_loop buffer size (unexpected e ∷ answers) =
    let rest = write_loop buffer size answers in if is_busy e then rest else lost
write_loop buffer size (value n ∷ answers) =
    let rest = write_loop buffer (size_sub size n) answers in
    if leb (length buffer) n then finished else rest

-- writer, as echoHandle starts it.
abbrev pub writer : Text → List (Expected ℕ) → Wrote
writer buffer answers = write_loop buffer (length buffer) answers

-- The two and_then of echoHandle: the buffer with what came.
unfoldable pub take_in : Text → Expected Text → Expected Text
take_in buffer (unexpected e) = unexpected e
take_in buffer (value []) = unexpected (socket_code eof_error)
take_in buffer (value (c ∷ s)) = value (buffer ++ (c ∷ s))

-- What echoHandle did: the buffers of the writers that it started, in order, what it holds, and
-- whether it has returned.
pub record Echoed : Type 0 where
  pub writers : List Text
  pub held : Text
  pub ended : Bool

-- A writer for the buffer was started before the rest.
abbrev pub started : Text → Echoed → Echoed
started buffer e = record e { writers = buffer ∷ e.writers }

-- echoHandle, from a buffer.
unfoldable pub echo_handle : Text → List (Expected Text) → Echoed
unfolding take_in
echo_handle buffer [] = record { writers = []; held = buffer; ended = false }
echo_handle buffer (answer ∷ answers) = elim (take_in buffer answer) [
  | value buffer' ↦ echo_handle buffer' answers
  | unexpected e ↦ elim (same_error e (socket_code eof_error)) [
    | true ↦ record { writers = buffer ∷ []; held = []; ended = true }
    | false ↦ elim (same_error e try_again || same_error e would_block) [
      | true ↦ started buffer (echo_handle [] answers)
      | false ↦ record { writers = []; held = buffer; ended = true }
    ]
  ]
]
