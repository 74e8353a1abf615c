-- ===== src/Server/Handle.antt =====
-- The loop of clientHandle of demo/uringhttp.cpp. The responders that it starts are tasks of their own.
use coro_iomultiplex.Prelude.{
  Text, List, [], ◌∷◌, Option, none, some, Bool, true, false, ◌||◌, if◌then◌else◌, ◌≡◌, refl,
  Expected, value, unexpected, same_category, http_error,
}
use coro_iomultiplex.Http.Status.{HttpErrc, Request, new_request}
use coro_iomultiplex.Http.Request.{Parsed, parse_request}
use coro_iomultiplex.Server.{Received, read_loop, closes, errc_at, Sought, Served, answer, serve}
use coro_iomultiplex.Prelude.{Bool-cases, inl, inr}
use coro_iomultiplex.Server as Server

-- What a round of clientHandle does: it starts a responder for a request, and says whether it returns
-- then; or it returns without one. `unnamed` is a status that no enumerator names, or a parser that
-- does not return.
pub data Round : Type 0 where
  asks : Request → Bool → Round
  ends unnamed : Round

unfoldable pub parsed_round : Bool → Option Parsed → Round
unfolding closes
parsed_round closed none = unnamed
parsed_round closed (some p) = asks p.request (closes p.request || closed)

unfoldable pub status_round : Bool → Option HttpErrc → Round
unfolding closes
status_round closed none = unnamed
status_round closed (some status) =
    let request = record new_request { status = status } in asks request (closes request || closed)

-- clientHandle on what readRequest left.
unfoldable pub asked_for : Received → Round
unfolding parsed_round status_round errc_at
asked_for r = elim r.result [
  | value message ↦ parsed_round r.closed (parse_request new_request message)
  | unexpected e ↦
      if same_category e.category http_error then status_round r.closed (errc_at e.number) else ends
]

-- What clientHandle did: the requests for which it started a responder, in order, and whether it has
-- returned. `unread` is a round that is unnamed.
pub record Handled : Type 0 where
  pub requests : List Request
  pub ended : Bool
  pub unread : Bool

abbrev pub no_more : Bool → Bool → Handled
no_more ended unread = record { requests = []; ended = ended; unread = unread }

-- A responder was started before the rest.
abbrev pub started : Request → Handled → Handled
started request h = record h { requests = request ∷ h.requests }

-- A round, before the rest.
unfoldable pub after_round : Round → Handled → Handled
after_round ends rest = no_more true false
after_round unnamed rest = no_more true true
after_round (asks request true) rest = started request (no_more true false)
after_round (asks request false) rest = started request rest

-- clientHandle: its rounds on what the recvs of its calls of readRequest give, in order; it returns,
-- or waits in the call that is the next.
unfoldable pub client_handle : List (List (Expected Text)) → Handled
unfolding after_round
client_handle [] = no_more false false
client_handle (call ∷ calls) =
    let rest = client_handle calls in
    elim (read_loop false [] call) [
      | none ↦ no_more false false
      | some r ↦ after_round (asked_for r) rest
    ]

-- What the responder of a round answers.
abbrev pub served_round : Text → (Text → Sought) → Round → Served
served_round root file (asks request close) = answer root file request close
served_round root file ends = Server.ends
served_round root file unnamed = Server.unnamed

serve_parsed-round :
    (root : Text) (file : Text → Sought) (closed : Bool) (p : Option Parsed)
    → Server.serve_parsed root file closed p ≡ served_round root file (parsed_round closed p)
unfolding Server.serve_parsed parsed_round
serve_parsed-round root file closed none = refl
serve_parsed-round root file closed (some p) = refl

serve_status-round :
    (root : Text) (file : Text → Sought) (closed : Bool) (status : Option HttpErrc)
    → Server.serve_status root file closed status
      ≡ served_round root file (status_round closed status)
unfolding Server.serve_status status_round
serve_status-round root file closed none = refl
serve_status-round root file closed (some status) = refl

serve-round :
    (root : Text) (file : Text → Sought) (closed : Bool) (result : Expected Text)
    → let r : Received = record { closed = closed; result = result } in
      serve root file r ≡ served_round root file (asked_for r)
unfolding serve asked_for
serve-round root file closed (value message) =
    serve_parsed-round root file closed (parse_request new_request message)
serve-round root file closed (unexpected e) =
    elim (Bool-cases (same_category e.category http_error)) [
      | inl known ↦ rw known (serve_status-round root file closed (errc_at e.number))
      | inr other ↦ rw other refl
    ]

-- A round and the responder that it starts, where that answers before the next round, are what `serve`
-- says.
pub serve-asked_for :
    (root : Text) (file : Text → Sought) (r : Received)
    → serve root file r ≡ served_round root file (asked_for r)
serve-asked_for root file r = serve-round root file r.closed r.result
