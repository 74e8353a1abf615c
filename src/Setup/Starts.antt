-- ===== src/Setup/Starts.antt =====
-- The start of demo/uringhttp.cpp.
use coro_iomultiplex.Prelude.{ℕ, ◌≡◌, List, [], ◌∷◌, Text}
use coro_iomultiplex.Http.Socket.{returned, errc}
use coro_iomultiplex.Async.Pool.{at_queue, at_end}
use coro_iomultiplex.Async.Pool.Launch.{Starting, pool_of}
use coro_iomultiplex.Setup.{System, system_error, gives, throws, Calls}
use coro_iomultiplex.Setup.Launched.{IsReady, IsRefused}
use coro_iomultiplex.Setup.Programs.{entered, undefined, uring_main, serving_pool}

-- The system once the ring is there.
abbrev pub with_ring : ℕ → System → System
with_ring ring s = record s { open_fds = ring ∷ s.open_fds }

-- The program on its two arguments enters a pool where the reaper and the acceptor are in queues of
-- their own; or it uses end() of the queues; or it throws.
pub data IsStart (args : List Text) (ring : ℕ) (calls : Calls) (start : Starting)
    (n reaper acceptor : ℕ) (port root : Text) (s : System) : Type 0 where
  serves :
      (fd : ℕ) (s' : System)
      → start.cursor ≡ at_queue 0
      → uring_main args (returned ring) calls (pool_of start) reaper acceptor s ≡ (
        gives (
            entered (record {
              pool = serving_pool n reaper acceptor;
              server = fd;
              port = port;
              web_root = root;
              events = [];
            })),
        s',
      )
      → IsReady calls (with_ring ring s) s' fd
      → IsStart args ring calls start n reaper acceptor port root s
  strays :
      (fd : ℕ) (s' : System)
      → start.cursor ≡ at_end
      → uring_main args (returned ring) calls (pool_of start) reaper acceptor s
        ≡ (gives undefined, s')
      → IsReady calls (with_ring ring s) s' fd
      → IsStart args ring calls start n reaper acceptor port root s
  fails :
      (errno : ℕ) (s' : System)
      → uring_main args (returned ring) calls (pool_of start) reaper acceptor s
        ≡ (throws (system_error (errc errno)), s')
      → IsRefused calls (with_ring ring s) s' errno
      → IsStart args ring calls start n reaper acceptor port root s
