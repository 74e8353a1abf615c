-- ===== src/Server/Sessions.antt =====
-- clientHandle of demo/uringhttp.cpp over the requests of a client.
use coro_iomultiplex.Prelude.{
  ◌≤◌, ◌≡◌, ◌≢◌, refl, sym, ap, ◌∙◌, subst, Text, length, length-append, ends_with, All, List, [],
  ◌∷◌, ◌++◌, map, some, true, false, Expected, value, unexpected, ErrorCode, same_error, arith,
}
use coro_iomultiplex.Http.Receive.{blank_line, max_request}
use coro_iomultiplex.Http.Status.{Request}
use coro_iomultiplex.Uring.{uring_code, sqe_busy}
use coro_iomultiplex.Server.{goes_on, stops, read_turn, read_loop}
use coro_iomultiplex.Server.Handle.{
  asks, parsed_round, asked_for, started, after_round, client_handle,
}
use coro_iomultiplex.Server.Clients.{
  ClientRequest, text_of, request_of, IsWellFormed, parse_request-text_of, closes-request_of,
}

-- What is there after the recvs.
abbrev pub gathered : Text → List (Expected Text) → Text
gathered message [] = message
gathered message (value s ∷ before) = gathered (message ++ s) before
gathered message (unexpected e ∷ before) = gathered message before

-- Each recv finds the ring busy, or gives some bytes that do not leave a blank line at the end.
abbrev pub AreParts : Text → List (Expected Text) → Type 0
AreParts message [] = Unit
AreParts message (value s ∷ before) =
    (s ≢ []) × (ends_with blank_line (message ++ s) ≡ false) × AreParts (message ++ s) before
AreParts message (unexpected e ∷ before) =
    (same_error e (uring_code sqe_busy) ≡ true) × AreParts message before

-- A request with what its client sends behind it without waiting for the answer, and how they come.
pub record Arrival : Type 0 where
  pub request : ClientRequest
  pub after : Text
  pub before : List (Expected Text)
  pub last : Text

abbrev pub recvs_of : Arrival → List (Expected Text)
recvs_of a = a.before ++ (value a.last ∷ [])

-- The request is well-formed, and comes with what is behind it, up to a blank line, before another recv is made; both fit.
pub record IsArrival (a : Arrival) : Type 0 where
  pub well : IsWellFormed a.request
  pub parts : AreParts [] a.before
  pub given : a.last ≢ []
  pub whole : gathered [] a.before ++ a.last ≡ text_of a.request ++ a.after
  pub ends : ends_with blank_line (text_of a.request ++ a.after) ≡ true
  pub fits : length (text_of a.request ++ a.after) ≤ max_request

read_turn_part :
    (message : Text) (s : Text)
    → s ≢ []
    → length (message ++ s) ≤ max_request
    → ends_with blank_line (message ++ s) ≡ false
    → read_turn false message (value s) ≡ goes_on (message ++ s)
unfolding read_turn
read_turn_part message [] given fits more = absurd (given refl)
read_turn_part message (c ∷ s) given fits more = ground (arith, length-append message (c ∷ s))

read_turn_whole :
    (message : Text) (s : Text)
    → s ≢ []
    → length (message ++ s) ≤ max_request
    → ends_with blank_line (message ++ s) ≡ true
    → read_turn false message (value s)
      ≡ stops (record { closed = false; result = value (message ++ s) })
unfolding read_turn
read_turn_whole message [] given fits more = absurd (given refl)
read_turn_whole message (c ∷ s) given fits more = ground (arith, length-append message (c ∷ s))

read_turn_busy :
    (message : Text) (e : ErrorCode)
    → same_error e (uring_code sqe_busy) ≡ true
    → read_turn false message (unexpected e) ≡ goes_on message
unfolding read_turn
read_turn_busy message e busy = ground arith

length-gathered :
    (message : Text) (before : List (Expected Text))
    → length message ≤ length (gathered message before)
length-gathered message [] = omega arith
length-gathered message (value s ∷ before) =
    omega (arith, length-append message s, length-gathered (message ++ s) before)
length-gathered message (unexpected e ∷ before) = length-gathered message before

-- readRequest reads on until the last recv, and returns all.
read_loop_gathers :
    (message : Text) (before : List (Expected Text)) (last : Text)
    → AreParts message before
    → last ≢ []
    → length (gathered message before ++ last) ≤ max_request
    → ends_with blank_line (gathered message before ++ last) ≡ true
    → read_loop false message (before ++ (value last ∷ []))
      ≡ some (record { closed = false; result = value (gathered message before ++ last) })
unfolding read_loop
read_loop_gathers message [] last parts given fits whole =
    rw (read_turn_whole message last given fits whole, read_loop) refl
read_loop_gathers message (value s ∷ before) last parts given fits whole =
    let room : length (message ++ s) ≤ max_request = omega (
      arith,
      fits,
      length-append (gathered (message ++ s) before) last,
      length-gathered (message ++ s) before,
    ) in
    rw (read_turn_part message s parts.0 room parts.1, read_loop)
      (read_loop_gathers (message ++ s) before last parts.2 given fits whole)
read_loop_gathers message (unexpected e ∷ before) last parts given fits whole =
    rw (read_turn_busy message e parts.0, read_loop)
      (read_loop_gathers message before last parts.1 given fits whole)

-- A round starts a responder for the request, and what stands behind it is dropped.
asked_for-text_of :
    (q : ClientRequest) (after : Text)
    → IsWellFormed q
    → asked_for (record { closed = false; result = value (text_of q ++ after) })
      ≡ asks (request_of q) false
unfolding asked_for parsed_round
asked_for-text_of q after w = rw (parse_request-text_of q after w) (rw (closes-request_of q w) refl)

-- The request that an arrival stands for.
abbrev pub asked_by : Arrival → Request
asked_by a = request_of a.request

-- Whatever well-formed requests come, each over whatever recvs and whatever is behind it when its
-- last recv returns: clientHandle starts a responder for each request, in order, and for nothing
-- else, and does not return; what its client had sent behind a request by then, such as a second
-- request, is dropped. The requests have no Connection header that is exactly "close" or "Close",
-- and fit the bound with what is behind them; a recv that is not the last of a request gives some
-- bytes and leaves no blank line at the end, or finds the ring busy.
pub client_handle_arrivals :
    (arrivals : List Arrival)
    → All IsArrival arrivals
    → client_handle (map recvs_of arrivals)
      ≡ record { requests = map asked_by arrivals; ended = false; unread = false }
unfolding client_handle
client_handle_arrivals [] ws = refl
client_handle_arrivals (a ∷ arrivals) ws =
    let w = ws.0 in
    let reads =
      read_loop_gathers [] a.before a.last w.parts w.given
        (subst (λ t. length t ≤ max_request) (sym w.whole) w.fits)
        (subst (λ t. ends_with blank_line t ≡ true) (sym w.whole) w.ends) in
    let round =
      ap (λ t. asked_for (record { closed = false; result = value t })) w.whole
      ∙ asked_for-text_of a.request a.after w.well in
    rw (reads, client_handle)
      (rw (round, after_round) (ap (started (asked_by a)) (client_handle_arrivals arrivals ws.1)))
