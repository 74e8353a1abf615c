-- ===== src/Http/Receive/Resume.antt =====
-- readRequest of src/http/Http.cpp over several reads and several calls.
use coro_iomultiplex.Prelude.{
  ℕ, ◌+◌, ◌≡◌, ◌≢◌, subst, refl, sym, ap, ◌∙◌, ltb, Text, ends_with, length, List, [], ◌∷◌, ◌++◌,
  Option, none, some, true, false, if◌then◌else◌, ℕ_discrete, store, entry-store_self, Expected,
  value, unexpected, ErrorCode, arith,
}
use mathlib.Core.Option.{some-injective}
use coro_iomultiplex.Http.Status.{make_error_code, bad_request, uncompleted_request}
use coro_iomultiplex.Http.Socket.{try_again, eof_error, socket_code, Answer, returned, failed}
use coro_iomultiplex.Http.Receive.{
  Buffers, blank_line, max_request, get_buffer, erase_buffer, read_more, Received, read_failed,
  read_loop, read_request,
}

unexpected-injective :
    (d e : ErrorCode) → ◌≡◌ {A = Expected Text} (unexpected d) (unexpected e) → d ≡ e
unexpected-injective d e h =
    ap (λ x. elim x as (λ y. ErrorCode) [ unexpected c ↦ c | value s ↦ d ]) h

-- The reads that give `pieces`.
abbrev pub reads : List Text → List (Answer Text)
reads [] = []
reads (s ∷ pieces) = returned s ∷ reads pieces

abbrev pub paused : Buffers → Received
paused b = record { buffers = b; result = unexpected (make_error_code uncompleted_request) }

read_failed-paused :
    (b : Buffers) (fd : ℕ) (message : Text) (b' : Buffers)
    → read_failed b fd message try_again ≡ paused b'
    → b ≡ b'
unfolding read_failed
read_failed-paused b fd message b' h =
    elim (ends_with blank_line message)
        as (λ c.
          ◌≡◌ {A = Received}
            (if c then record { buffers = erase_buffer b fd; result = value message } else record {
              buffers = b;
              result = unexpected (make_error_code uncompleted_request);
            })
            (paused b')
          → b ≡ b') [
            | true ↦ λ k. absurd (ground (arith, ap (λ r. r.result) k))
            | false ↦ λ k. ap (λ r. r.buffers) k
          ]
      h

-- What ends the loop on a read without an error of the socket is no pause.
read_more-not_paused :
    (b : Buffers) (fd : ℕ) (message s : Text) (e : ErrorCode) (b' : Buffers)
    → read_more message (value s) ≡ unexpected e
    → read_failed b fd message e ≢ paused b'
unfolding read_more read_failed
read_more-not_paused b fd message [] e b' h k =
    let end =
      subst (λ c. read_failed b fd message c ≡ paused b')
        (sym (unexpected-injective (socket_code eof_error) e h)) k in
    absurd (ground (arith, ap (λ r. r.result) end))
read_more-not_paused b fd message (c ∷ s) e b' h k =
    elim (ltb max_request (length (c ∷ s) + length message))
        as (λ t.
          ◌≡◌ {A = Expected Text}
            (if t then unexpected (make_error_code bad_request) else value (message ++ (c ∷ s)))
            (unexpected e)
          → ⊥) [
            | true ↦ λ g.
                let end =
                  subst (λ d. read_failed b fd message d ≡ paused b')
                    (sym (unexpected-injective (make_error_code bad_request) e g)) k in
                absurd (ground (arith, ap (λ r. r.result) end))
            | false ↦ λ g. absurd (ground arith)
          ]
      h

read_loop-resume :
    (fd : ℕ) (b : Buffers) (message : Text) (pieces : List Text) (b' : Buffers)
    (second : List (Answer Text))
    → b.entry fd ≡ some message
    → read_loop fd b message (reads pieces ++ (failed 11 ∷ [])) ≡ some (paused b')
    → (message' : Text) × (b'.entry fd ≡ some message')
      × (read_loop fd b message (reads pieces ++ second) ≡ read_loop fd b' message' second)
unfolding read_loop read_more
read_loop-resume fd b message [] b' second at h =
    let same =
      read_failed-paused b fd message b'
        (some-injective (read_failed b fd message try_again) (paused b') h) in
    (message, sym (ap (λ c. c.entry fd) same) ∙ at, ap (λ c. read_loop fd c message second) same)
read_loop-resume fd b message (s ∷ pieces) b' second at h =
    let again = λ (message' : Text).
      read_loop-resume fd (store ℕ_discrete fd message' b) message' pieces b' second
        (entry-store_self ℕ_discrete fd message' b) in
    elim (read_more message (value s))
        as (λ m.
          read_more message (value s) ≡ m
          → ◌≡◌ {A = Option Received}
              (elim m as (λ x. Option Received) [
                | unexpected e ↦ some (read_failed b fd message e)
                | value message' ↦
                    read_loop fd (store ℕ_discrete fd message' b) message'
                      (reads pieces ++ (failed 11 ∷ []))
              ])
              (some (paused b'))
          → (message' : Text) × (b'.entry fd ≡ some message')
            × (◌≡◌ {A = Option Received}
                (elim m as (λ x. Option Received) [
                  | unexpected e ↦ some (read_failed b fd message e)
                  | value message' ↦
                      read_loop fd (store ℕ_discrete fd message' b) message'
                        (reads pieces ++ second)
                ])
                (read_loop fd b' message' second))) [
                  | unexpected e ↦ λ stops k. absurd (
                      read_more-not_paused b fd message s e b' stops
                        (some-injective (read_failed b fd message e) (paused b') k))
                  | value message' ↦ λ stops k. again message' k
                ]
      refl h

pub get_buffer-entered :
    (b : Buffers) (fd : ℕ) → (get_buffer b fd).0.entry fd ≡ some (get_buffer b fd).1
unfolding get_buffer
get_buffer-entered b fd =
    elim (b.entry fd)
        as (λ o.
          b.entry fd ≡ o
          → (elim o as (λ x. Buffers × Text) [
            | some message ↦ (b, message)
            | none ↦ (store ℕ_discrete fd [] b, [])
          ]).0.entry
              fd
            ≡ some
                (elim o as (λ x. Buffers × Text) [
                  | some message ↦ (b, message)
                  | none ↦ (store ℕ_discrete fd [] b, [])
                ]).1) [ some message ↦ λ e. e | none ↦ λ e. entry-store_self ℕ_discrete fd [] b ]
      refl

pub get_buffer-held :
    (b : Buffers) (fd : ℕ) (message : Text)
    → b.entry fd ≡ some message
    → get_buffer b fd ≡ (b, message)
unfolding get_buffer
get_buffer-held b fd message h =
    ap
      (λ o. elim o as (λ x. Buffers × Text) [
        | some t ↦ (b, t)
        | none ↦ (store ℕ_discrete fd [] b, [])
      ])
      h

-- A request that comes in parts is read as if it came at once: a call that was given some pieces
-- and then nothing (EAGAIN), and returned UNCOMPLETED_REQUEST, left such buffers that a later call
-- on the descriptor does exactly what one call does that is given the pieces and then what the
-- later call is given.
pub read_request-resume :
    (b : Buffers) (fd : ℕ) (pieces : List Text) (b' : Buffers) (second : List (Answer Text))
    → read_request b fd (reads pieces ++ (failed 11 ∷ [])) ≡ some (paused b')
    → read_request b' fd second ≡ read_request b fd (reads pieces ++ second)
unfolding read_request
read_request-resume b fd pieces b' second h =
    let (message, at, same) =
      read_loop-resume fd (get_buffer b fd).0 (get_buffer b fd).1 pieces b' second
        (get_buffer-entered b fd) h in
    ap (λ g. read_loop fd g.0 g.1 second) (get_buffer-held b' fd message at) ∙ sym same
