-- ===== src/Echo/Conserves.antt =====
-- What echoHandle of demo/epolltest.cpp keeps of what its client sent.
use coro_iomultiplex.Prelude.{
  ◌≡◌, sym, ◌∙◌, Text, List, [], ◌∷◌, ◌++◌, true, false, ◌||◌, Expected, value, unexpected,
  same_error, arith, joined,
}
use mathlib.Core.List.{append_assoc, append-nil}
use coro_iomultiplex.Http.Socket.{socket_code, eof_error, try_again, would_block}
use coro_iomultiplex.Echo.{take_in, echo_handle}

-- Every error is that there is nothing to read, or that the client has closed.
abbrev pub OnlyWaits : List (Expected Text) → Type 0
OnlyWaits [] = Unit
OnlyWaits (value s ∷ answers) = OnlyWaits answers
OnlyWaits (unexpected e ∷ answers) =
    (same_error e (socket_code eof_error) || (same_error e try_again || same_error e would_block))
      ≡ true
    × OnlyWaits answers

-- What the client sent before it closed.
unfoldable pub received : List (Expected Text) → Text
received [] = []
received (value [] ∷ answers) = []
received (value (c ∷ s) ∷ answers) = (c ∷ s) ++ received answers
received (unexpected e ∷ answers) = elim (same_error e (socket_code eof_error)) [
  | true ↦ []
  | false ↦ received answers
]

-- echoHandle loses no byte and doubles none while its reads have no other error than that they
-- would wait: the buffers of its writers, and what it holds, are what it held and what came.
pub joined-echo_handle :
    (buffer : Text) (answers : List (Expected Text))
    → OnlyWaits answers
    → joined (echo_handle buffer answers).writers ++ (echo_handle buffer answers).held
      ≡ buffer ++ received answers
unfolding echo_handle take_in received
joined-echo_handle buffer [] waits = sym (append-nil buffer)
joined-echo_handle buffer (value [] ∷ answers) waits = append-nil (buffer ++ [])
joined-echo_handle buffer (value (c ∷ s) ∷ answers) waits =
    joined-echo_handle (buffer ++ (c ∷ s)) answers waits
    ∙ append_assoc buffer (c ∷ s) (received answers)
joined-echo_handle buffer (unexpected e ∷ answers) waits = ground (
  arith,
  append-nil buffer,
  append-nil (buffer ++ []),
  append_assoc buffer (joined (echo_handle [] answers).writers) (echo_handle [] answers).held,
  joined-echo_handle [] answers,
)
