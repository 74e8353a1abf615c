-- ===== src/Server/Reads.antt =====
-- What readRequest of demo/uringhttp.cpp returns.
use coro_iomultiplex.Prelude.{
  ◌+◌, ◌≤◌, ◌≡◌, refl, sym, ap, ◌∙◌, subst, ltb, Text, ends_with, length, length-append, List, [],
  ◌∷◌, ◌++◌, Option, some, Bool, true, false, if◌then◌else◌, Expected, value, unexpected,
  same_error, arith,
}
use mathlib.Core.List.{append-nil, append_assoc}
use mathlib.Core.Option.{some-injective}
use coro_iomultiplex.Http.Status.{make_error_code, bad_request}
use coro_iomultiplex.Http.Socket.{connection_reset}
use coro_iomultiplex.Http.Receive.{blank_line, max_request}
use coro_iomultiplex.Uring.{uring_code, sqe_busy}
use coro_iomultiplex.Server.{Received, read_end, Turn, goes_on, stops, read_turn, read_loop}

-- The bytes that recv gives.
abbrev pub bytes_of : List (Expected Text) → Text
bytes_of [] = []
bytes_of (value s ∷ answers) = s ++ bytes_of answers
bytes_of (unexpected e ∷ answers) = bytes_of answers

abbrev pub piece_of : Expected Text → Text
piece_of (value s) = s
piece_of (unexpected e) = []

-- A text that is returned is whole, within the bound, and the beginning of what was sent.
pub record IsWhole (sent s : Text) : Type 0 where
  pub ends : ends_with blank_line s ≡ true
  pub fits : length s ≤ max_request
  pub rest : Text
  pub begins : s ++ rest ≡ sent

-- What a round does: it goes on with what it read, within the bound, or its text is whole.
unfoldable pub IsTurn : Text → Text → Turn → Type 0
IsTurn request piece (goes_on request') =
    (request' ≡ request ++ piece) × (length request' ≤ max_request)
IsTurn request piece (stops r) = (s : Text) → r.result ≡ value s → IsWhole (request ++ piece) s

value-injective : (s t : Text) → ◌≡◌ {A = Expected Text} (value s) (value t) → s ≡ t
value-injective s t h = ground arith

IsWhole-end :
    (request piece : Text)
    → length request ≤ max_request
    → (s : Text) → (read_end request).result ≡ value s
    → IsWhole (request ++ piece) s
unfolding read_end
IsWhole-end request piece le s h =
    elim (ends_with blank_line request)
        as (λ c.
          ends_with blank_line request ≡ c
          → ◌≡◌ {A = Expected Text}
              (if c then value request else unexpected (make_error_code bad_request)) (value s)
          → IsWhole (request ++ piece) s) [
            | true ↦ λ e k.
                subst (λ t. IsWhole (request ++ piece) t) (value-injective request s k)
                  (record { ends = e; fits = le; rest = piece; begins = refl })
            | false ↦ λ e k. absurd (ground arith)
          ]
      refl h

read_turn-IsTurn :
    (closed : Bool) (request : Text) (answer : Expected Text)
    → length request ≤ max_request
    → IsTurn request (piece_of answer) (read_turn closed request answer)
unfolding read_turn IsTurn
read_turn-IsTurn closed request (unexpected e) le =
    elim (same_error e (uring_code sqe_busy))
      as (λ b. IsTurn request [] (
        if b
        then goes_on request
        else (if same_error e connection_reset
            then stops (read_end request)
            else stops (record { closed = closed; result = unexpected e })))) [
              | true ↦ (sym (append-nil request), le)
              | false ↦
                  elim (same_error e connection_reset)
                    as (λ b. IsTurn request [] (
                      if b
                      then stops (read_end request)
                      else stops (record { closed = closed; result = unexpected e }))) [
                        | true ↦ IsWhole-end request [] le
                        | false ↦ λ s h. absurd (ground arith)
                      ]
            ]
read_turn-IsTurn closed request (value []) le = IsWhole-end request [] le
read_turn-IsTurn closed request (value (c ∷ s)) le =
    elim (ltb max_request (length (c ∷ s) + length request))
        as (λ b.
          ltb max_request (length (c ∷ s) + length request) ≡ b
          → IsTurn request (c ∷ s) (
              if b
              then stops
                  (record { closed = closed; result = unexpected (make_error_code bad_request) })
              else (if ends_with blank_line (request ++ (c ∷ s))
                  then stops (record { closed = closed; result = value (request ++ (c ∷ s)) })
                  else goes_on (request ++ (c ∷ s))))) [
                    | true ↦ λ e t h. absurd (ground arith)
                    | false ↦ λ e.
                        appended closed request (c ∷ s)
                          (ground (arith, length-append request (c ∷ s)))
                  ]
      refl
  where
    appended :
        (closed : Bool) (request piece : Text)
        → length (request ++ piece) ≤ max_request
        → IsTurn request piece (
            if ends_with blank_line (request ++ piece)
            then stops (record { closed = closed; result = value (request ++ piece) })
            else goes_on (request ++ piece))
    appended closed request piece le' =
        elim (ends_with blank_line (request ++ piece))
            as (λ b.
              ends_with blank_line (request ++ piece) ≡ b
              → IsTurn request piece (
                  if b
                  then stops (record { closed = closed; result = value (request ++ piece) })
                  else goes_on (request ++ piece))) [
                    | true ↦ λ e t h.
                        subst (λ u. IsWhole (request ++ piece) u)
                          (value-injective (request ++ piece) t h)
                          (record {
                            ends = e;
                            fits = le';
                            rest = [];
                            begins = append-nil (request ++ piece);
                          })
                    | false ↦ λ e. (refl, le')
                  ]
          refl

later : (sent piece s more : Text) → IsWhole (sent ++ piece) s → IsWhole (sent ++ (piece ++ more)) s
later sent piece s more w = record {
  ends = w.ends;
  fits = w.fits;
  rest = w.rest ++ more;
  begins =
      sym (append_assoc s w.rest more)
      ∙ ap (λ t. t ++ more) w.begins
      ∙ append_assoc sent piece more;
}

-- A text that readRequest returns, from a text within the bound, ends with a blank line, is at most
-- 4096 bytes long, and is the beginning of what was read before and what recv gave.
pub read_loop-IsWhole :
    (closed : Bool) (request : Text) (answers : List (Expected Text)) (r : Received) (s : Text)
    → length request ≤ max_request
    → read_loop closed request answers ≡ some r
    → r.result ≡ value s
    → IsWhole (request ++ bytes_of answers) s
unfolding read_loop IsTurn
read_loop-IsWhole closed request [] r s le h k = absurd (ground arith)
read_loop-IsWhole closed request (answer ∷ answers) r s le h k =
    let again = λ (request' : Text). read_loop-IsWhole closed request' answers r s in
    subst (λ t. IsWhole (request ++ t) s) (bytes_of_cons answer answers)
      (elim (read_turn closed request answer)
          as (λ t.
            IsTurn request (piece_of answer) t
            → ◌≡◌ {A = Option Received}
                (elim t as (λ x. Option Received) [
                  | goes_on request' ↦ read_loop closed request' answers
                  | stops r' ↦ some r'
                ])
                (some r)
            → IsWhole (request ++ (piece_of answer ++ bytes_of answers)) s) [
              | goes_on request' ↦ λ turn eq.
                  subst (λ t. IsWhole t s)
                    (ap (λ t. t ++ bytes_of answers) turn.0
                      ∙ append_assoc request (piece_of answer) (bytes_of answers))
                    (again request' turn.1 eq k)
              | stops r' ↦ λ turn eq.
                  later request (piece_of answer) s (bytes_of answers)
                    (turn s (ap (λ q. q.result) (some-injective r' r eq) ∙ k))
            ]
        (read_turn-IsTurn closed request answer le) h)
  where
    bytes_of_cons :
        (answer : Expected Text) (answers : List (Expected Text))
        → piece_of answer ++ bytes_of answers ≡ bytes_of (answer ∷ answers)
    bytes_of_cons (value t) answers = refl
    bytes_of_cons (unexpected e) answers = refl
