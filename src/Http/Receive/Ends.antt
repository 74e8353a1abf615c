-- ===== src/Http/Receive/Ends.antt =====
-- readRequest of src/http/Http.cpp returns.
use coro_iomultiplex.Prelude.{
  ℕ, ◌+◌, ◌≤◌, ◌<◌, ◌≡◌, refl, Text, length, List, [], ◌∷◌, Option, none, some, true, ℕ_discrete,
  store, value, unexpected, arith, is_some,
}
use coro_iomultiplex.Http.Socket.{Answer, read}
use coro_iomultiplex.Http.Receive.{
  Buffers, max_request, get_buffer, read_more, Received, read_failed, read_loop, read_request,
}
use coro_iomultiplex.Http.Receive.Buffers.{IsBounded, read_more-le, read_more-lt}

pub read_loop-ends :
    (fd : ℕ) (b : Buffers) (message : Text) (answers : List (Answer Text))
    → length message ≤ max_request
    → max_request < length message + length answers
    → is_some (read_loop fd b message answers) ≡ true
unfolding read_loop
read_loop-ends fd b message [] le h = absurd (omega arith)
read_loop-ends fd b message (answer ∷ answers) le h =
    let again =
      λ (message' : Text). read_loop-ends fd (store ℕ_discrete fd message' b) message' answers in
    elim (read_more message (read (some fd) answer))
        as (λ m.
          ((message' : Text) → m ≡ value message' → length message' ≤ max_request)
          → ((message' : Text) → m ≡ value message' → length message < length message')
          → is_some (elim m as (λ x. Option Received) [
            | unexpected e ↦ some (read_failed b fd message e)
            | value message' ↦ read_loop fd (store ℕ_discrete fd message' b) message' answers
          ])
            ≡ true) [
              | unexpected e ↦ λ bound grows. refl
              | value message' ↦ λ bound grows.
                  let more = grows message' refl in
                  again message' (bound message' refl) (omega arith)
            ]
      (read_more-le message (read (some fd) answer)) (read_more-lt message (read (some fd) answer))

-- readRequest returns: from bounded buffers it makes at most 4097 reads, whatever they give.
pub read_request-ends :
    (b : Buffers) (fd : ℕ) (answers : List (Answer Text))
    → IsBounded b
    → max_request < length answers
    → is_some (read_request b fd answers) ≡ true
unfolding read_request get_buffer IsBounded
read_request-ends b fd answers fits h =
    elim (b.entry fd)
        as (λ o.
          b.entry fd ≡ o
          → is_some (
              let (b', message) = (elim o as (λ x. Buffers × Text) [
                | some message ↦ (b, message)
                | none ↦ (store ℕ_discrete fd [] b, [])
              ]) in
              read_loop fd b' message answers)
            ≡ true) [
              | some message ↦
                  λ e. read_loop-ends fd b message answers (fits fd message e) (omega arith)
              | none ↦ λ e.
                  read_loop-ends fd (store ℕ_discrete fd [] b) [] answers (omega arith)
                    (omega arith)
            ]
      refl
