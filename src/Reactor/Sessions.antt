-- ===== src/Reactor/Sessions.antt =====
-- Requests as a client writes them, over httpHandle of demo/httptest.cpp.
use coro_iomultiplex.Prelude.{
  ℕ, ◌≤◌, ◌≡◌, refl, sym, ap, ◌∙◌, subst, Text, length, length-append, joined, All, List, [], ◌∷◌,
  ◌++◌, map, true, false, ends_with, Expected, value, arith,
}
use coro_iomultiplex.Http.Status.{Request}
use coro_iomultiplex.Http.Socket.{Answer}
use coro_iomultiplex.Http.Receive.{Buffers, blank_line, max_request, get_buffer}
use coro_iomultiplex.Http.Receive.Pieces.{call_of, AreGiven, read_request_part, read_request_whole}
use coro_iomultiplex.Server.Clients.{
  ClientRequest, text_of, request_of, IsWellFormed, parse_request-text_of, closes-request_of,
}
use coro_iomultiplex.Reactor.{begun, reading, handle_parsed, http_handle, results, session}

-- A request with what its client sends behind it without waiting for the answer, and the pieces in
-- which they come: those of the calls of readRequest that do not get the end, and those of the call
-- that does.
pub record Arrival : Type 0 where
  pub request : ClientRequest
  pub after : Text
  pub earlier : List (List Text)
  pub last : List Text

-- The calls, in front of others.
abbrev pub calls_before : List (List Text) → List (List (Answer Text)) → List (List (Answer Text))
calls_before [] calls = calls
calls_before (pieces ∷ earlier) calls = call_of pieces ∷ calls_before earlier calls

-- The calls for all requests.
abbrev pub calls_of : List Arrival → List (List (Answer Text))
calls_of [] = []
calls_of (a ∷ arrivals) = calls_before a.earlier (call_of a.last ∷ calls_of arrivals)

-- What is there after the calls.
abbrev pub gathered : Text → List (List Text) → Text
gathered message [] = message
gathered message (pieces ∷ earlier) = gathered (message ++ joined pieces) earlier

-- None of the calls has a blank line at the end of what is there after it, nor an empty piece.
abbrev pub AreParts : Text → List (List Text) → Type 0
AreParts message [] = Unit
AreParts message (pieces ∷ earlier) =
    AreGiven pieces
    × (ends_with blank_line (message ++ joined pieces) ≡ false)
    × AreParts (message ++ joined pieces) earlier

-- The request is well-formed, and comes with what is behind it, up to a blank line, in the calls;
-- no call but the last finds a blank line at the end, and both fit.
pub record IsArrival (a : Arrival) : Type 0 where
  pub well : IsWellFormed a.request
  pub parts : AreParts [] a.earlier
  pub given : AreGiven a.last
  pub whole : gathered [] a.earlier ++ joined a.last ≡ text_of a.request ++ a.after
  pub ends : ends_with blank_line (text_of a.request ++ a.after) ≡ true
  pub fits : length (text_of a.request ++ a.after) ≤ max_request

length-gathered :
    (message : Text) (earlier : List (List Text))
    → length message ≤ length (gathered message earlier)
length-gathered message [] = omega arith
length-gathered message (pieces ∷ earlier) = omega (
  arith,
  length-append message (joined pieces),
  length-gathered (message ++ joined pieces) earlier,
)

-- The earlier calls start nothing, and the last one gets the whole text.
http_handle_gathers :
    (b : Buffers) (fd : ℕ) (message : Text) (earlier : List (List Text)) (last : List Text)
    (calls : List (List (Answer Text)))
    → (get_buffer b fd).1 ≡ message
    → AreParts message earlier
    → AreGiven last
    → length (gathered message earlier ++ joined last) ≤ max_request
    → ends_with blank_line (gathered message earlier ++ joined last) ≡ true
    → (b' : Buffers) × ((get_buffer b' fd).1 ≡ [])
      × (http_handle (results b fd (calls_before earlier (call_of last ∷ calls)))
          ≡ http_handle (value (gathered message earlier ++ joined last) ∷ results b' fd calls))
unfolding http_handle results reading
http_handle_gathers b fd message [] last calls at parts given fits whole =
    let (b', empty, e) = read_request_whole b fd message last at given fits whole in
    (b', empty, rw (e, results) refl)
http_handle_gathers b fd message (pieces ∷ earlier) last calls at parts given fits whole =
    let room : length (message ++ joined pieces) ≤ max_request = omega (
      arith,
      fits,
      length-append (gathered (message ++ joined pieces) earlier) (joined last),
      length-gathered (message ++ joined pieces) earlier,
    ) in
    let (b1, at', e) = read_request_part b fd message pieces at parts.0 room parts.1 in
    let (b', empty, e') =
      http_handle_gathers b1 fd (message ++ joined pieces) earlier last calls at' parts.2 given fits
        whole in
    (b', empty, rw (e, results) e')

-- httpHandle reads the request, starts its responder and goes on.
http_handle-text_of :
    (q : ClientRequest) (after : Text) (rest : List (Expected Text))
    → IsWellFormed q
    → http_handle (value (text_of q ++ after) ∷ rest) ≡ begun (request_of q) (http_handle rest)
unfolding http_handle reading handle_parsed
http_handle-text_of q after rest w =
    rw (parse_request-text_of q after w) (rw (closes-request_of q w) refl)

-- The request that an arrival stands for.
abbrev pub asked_by : Arrival → Request
asked_by a = request_of a.request

-- httpHandle on a socket with nothing read yet: whatever well-formed requests come, each in
-- whatever pieces over whatever calls of readRequest, none of them empty, and only the last call of
-- each with a blank line at the end: it starts a responder for each request, in order, and for
-- nothing else, and does not return; what its client had sent behind a request by then, such as a
-- second request, is dropped. The requests fit the buffer with what is behind them, and have no
-- Connection header that is exactly "close" or "Close".
pub session_arrivals :
    (b : Buffers) (fd : ℕ) (arrivals : List Arrival)
    → (get_buffer b fd).1 ≡ []
    → All IsArrival arrivals
    → session b fd (calls_of arrivals)
      ≡ record { requests = map asked_by arrivals; ended = false; unread = false }
unfolding session results http_handle
session_arrivals b fd [] new ws = refl
session_arrivals b fd (a ∷ arrivals) new ws =
    let w = ws.0 in
    let (b', empty, e) =
      http_handle_gathers b fd [] a.earlier a.last (calls_of arrivals) new w.parts w.given
        (subst (λ t. length t ≤ max_request) (sym w.whole) w.fits)
        (subst (λ t. ends_with blank_line t ≡ true) (sym w.whole) w.ends) in
    let rest = session_arrivals b' fd arrivals empty ws.1 in
    e
    ∙ ap (λ t. http_handle (value t ∷ results b' fd (calls_of arrivals))) w.whole
    ∙ http_handle-text_of a.request a.after (results b' fd (calls_of arrivals)) w.well
    ∙ ap (begun (asked_by a)) rest
