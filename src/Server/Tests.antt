-- ===== src/Server/Tests.antt =====
-- The server of demo/uringhttp.cpp on concrete reads and sends.
use coro_iomultiplex.Prelude.{
  ℕ, ◌≡◌, refl, arith, codes, Text, List, [], ◌∷◌, ◌++◌, some, false, ends_with, compare_text,
  text_eq, Expected, value, unexpected,
}
use coro_iomultiplex.Http.Receive.{blank_line}
use coro_iomultiplex.Uring.{uring_code, sqe_busy}
use coro_iomultiplex.Server.{Received, read_end, read_turn, read_loop, is_busy, done, send_loop}
use coro_iomultiplex.Server.Runs.{send_file, send_response, repeated_file, send_response-done}
use coro_iomultiplex.Server.Sends.{repeated}
use coro_iomultiplex.Server.Named.{AreSystem, IsSystem}
use coro_iomultiplex.Prelude.{lookup}
use coro_iomultiplex.Http.Status.{get}
use coro_iomultiplex.Server.Handle.{client_handle}
use coro_iomultiplex.Server.Clients.{ClientRequest, text_of, IsWellFormed}
use coro_iomultiplex.Server.Sessions.{
  Arrival, IsArrival, recvs_of, asked_by, client_handle_arrivals,
}

program : Unit {0}
unfolding read_loop read_turn read_end ends_with text_eq compare_text is_busy send_loop
program = tt

abbrev answers : List (Expected Text)
answers =
    value (codes "GET / HTTP/1.1")
    ∷ (unexpected (uring_code sqe_busy) ∷ (value blank_line ∷ (value (codes "more") ∷ [])))

abbrev received : Received
received = record { closed = false; result = value (codes "GET / HTTP/1.1" ++ blank_line) }

receives : read_loop false [] answers ≡ some received
unfolding program
receives = refl

-- Three bytes of five are taken first.
abbrev sends : List (Expected ℕ)
sends = value 3 ∷ (unexpected (uring_code sqe_busy) ∷ (value 5 ∷ []))

sends-done : send_loop (codes "hello") sends ≡ done
unfolding program
sends-done = refl

abbrev request : Received
request = record {
  closed = false;
  result = value (codes "GET /a.js HTTP/1.1" ++ (13 ∷ 10 ∷ (codes "Accept: */*" ++ blank_line)));
}

answers-AreSystem : AreSystem answers
unfolding IsSystem
answers-AreSystem = (tt, (refl, (tt, (tt, tt))))

abbrev root_request : ClientRequest
root_request = record { method = get; uri = codes "/"; headers = [] }

root-IsWellFormed : IsWellFormed root_request
unfolding lookup
root-IsWellFormed = record {
  uri_word = omega arith;
  uri_line = omega arith;
  are_headers = tt;
  no_close = λ h. absurd (ground arith);
  keeps = λ h. absurd (ground arith);
}

-- A request in two pieces with another behind it.
abbrev first : Arrival
first = record {
  request = root_request;
  after = text_of root_request;
  before = value (codes "GET / HT") ∷ (unexpected (uring_code sqe_busy) ∷ []);
  last = codes "TP/1.1" ++ (blank_line ++ text_of root_request);
}

first-IsArrival : IsArrival first
unfolding program
first-IsArrival = record {
  well = root-IsWellFormed;
  parts = ((λ h. absurd (ground arith)), refl, (refl, tt));
  given = λ h. absurd (ground arith);
  whole = refl;
  ends = refl;
  fits = omega arith;
}

client_handle_arrivals_example :
    client_handle (recvs_of first ∷ (recvs_of first ∷ []))
    ≡ record { requests = asked_by first ∷ (asked_by first ∷ []); ended = false; unread = false }
client_handle_arrivals_example =
    client_handle_arrivals (first ∷ (first ∷ [])) (first-IsArrival, (first-IsArrival, tt))

-- Both the head and the file are sent in two parts.
sent-done : (send_response (codes "hello") (some (codes "hello")) sends sends).ends ≡ done
unfolding send_response send_file send_loop is_busy
sent-done = refl

send_response-done_example :
    (send_response (codes "hello") (some (codes "hello")) sends sends).bytes
    ≡ (repeated (codes "hello") sends ++ codes "hello")
      ++ repeated_file (some (codes "hello")) sends
send_response-done_example =
    send_response-done (codes "hello") (some (codes "hello")) sends sends sent-done
