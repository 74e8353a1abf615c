-- ===== src/Reactor/Tests.antt =====
-- The server of demo/httptest.cpp on concrete requests and answers.
use coro_iomultiplex.Prelude.{
  some, ℕ, ◌≡◌, ◌≢◌, refl, arith, codes, text_eq, compare_text, ends_with, lookup, List, [], ◌∷◌,
  ◌++◌, false, Expected, value, unexpected, empty_table, store, forget,
}
use coro_iomultiplex.Http.Status.{get}
use coro_iomultiplex.Http.Socket.{returned, failed, try_again}
use coro_iomultiplex.Http.Receive.{
  read_request, read_loop, read_more, read_failed, get_buffer, erase_buffer, blank_line,
}
use coro_iomultiplex.Http.Response.{respond}
use coro_iomultiplex.Files.{new_file}
use coro_iomultiplex.Server.{done}
use coro_iomultiplex.Reactor.{
  is_busy, send_body, open_loop, waiting, response_handler, send_head, session,
}
use coro_iomultiplex.Reactor.Errors.{open_loop_once}
use coro_iomultiplex.Server.Clients.{ClientRequest, text_of, IsWellFormed}
use coro_iomultiplex.Reactor.Sessions.{Arrival, IsArrival, calls_of, asked_by, session_arrivals}

program : Unit {0}
unfolding read_request read_loop read_more read_failed get_buffer erase_buffer ends_with text_eq
    compare_text store forget is_busy send_body send_head response_handler respond
program = tt

abbrev root_request : ClientRequest
root_request = record { method = get; uri = codes "/"; headers = [] }

root-IsWellFormed : IsWellFormed root_request
unfolding lookup
root-IsWellFormed = record {
  uri_word = omega arith;
  uri_line = omega arith;
  are_headers = tt;
  no_close = λ h. absurd (ground arith);
  keeps = λ h. absurd (ground arith);
}

-- A request in three pieces over two calls, with another behind it.
abbrev first : Arrival
first = record {
  request = root_request;
  after = text_of root_request;
  earlier = (codes "GET /" ∷ (codes " HT" ∷ [])) ∷ [];
  last = (codes "TP/1.1" ++ (blank_line ++ text_of root_request)) ∷ [];
}

first-IsArrival : IsArrival first
unfolding program
first-IsArrival = record {
  well = root-IsWellFormed;
  parts = (((λ h. absurd (ground arith)), ((λ h. absurd (ground arith)), tt)), refl, tt);
  given = ((λ h. absurd (ground arith)), tt);
  whole = refl;
  ends = refl;
  fits = omega arith;
}

session_arrivals_example :
    session empty_table 5 (calls_of (first ∷ (first ∷ [])))
    ≡ record { requests = asked_by first ∷ (asked_by first ∷ []); ended = false; unread = false }
unfolding get_buffer
session_arrivals_example =
    session_arrivals empty_table 5 (first ∷ (first ∷ [])) refl
      (first-IsArrival, (first-IsArrival, tt))

-- EMFILE, and then a descriptor.
open_loop_once_example :
    open_loop new_file ((failed 24, some 0) ∷ ((returned 7, some 3) ∷ []))
      ≡ open_loop new_file ((failed 24, some 0) ∷ [])
    × (open_loop new_file ((failed 24, some 0) ∷ ((returned 7, some 3) ∷ [])) ≢ waiting)
open_loop_once_example = open_loop_once new_file (failed 24) (some 0) ((returned 7, some 3) ∷ [])

abbrev sends : List (Expected ℕ)
sends = value 3 ∷ (unexpected try_again ∷ [])

send_body-done : (send_body 5 (sends ++ (value 5 ∷ []))).ends ≡ done
unfolding program
send_body-done = refl
