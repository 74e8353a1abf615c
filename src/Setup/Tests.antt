-- ===== src/Setup/Tests.antt =====
-- The set-up of a server on concrete answers.
use coro_iomultiplex.Prelude.{ℕ, ◌≡◌, refl, arith, [], ◌∷◌, false, true}
use coro_iomultiplex.Http.Socket.{returned, failed}
use coro_iomultiplex.Async.Pool.{at_queue, contains}
use coro_iomultiplex.Async.Pool.Launch.{Starting}
use coro_iomultiplex.Setup.{
  System, found, option, non_blocking, is_bound, listening, gives, Calls, launch, server_socket,
  listen_on, bind_socket, set_options, closes_if_thrown, close, checked,
}
use coro_iomultiplex.Setup.Launched.{IsSettled, launch-IsSettled}

abbrev at_start : System
at_start = record { open_fds = 2 ∷ (1 ∷ (0 ∷ [])); lists = 0; marks = [] }

abbrev fine : Calls
fine = record {
  addresses = found;
  socket = returned 4;
  options = returned tt;
  flags = returned tt;
  bind = returned tt;
  listen = returned tt;
}

-- The port is in use.
abbrev in_use : Calls
in_use = record fine { bind = failed 98 }

launched : launch fine at_start ≡ (
  gives 4,
  record {
    open_fds = 4 ∷ (2 ∷ (1 ∷ (0 ∷ [])));
    lists = 0;
    marks = listening 4 ∷ (is_bound 4 ∷ (non_blocking 4 ∷ (option 4 15 ∷ [])));
  },
)
unfolding launch server_socket listen_on bind_socket set_options closes_if_thrown close checked
launched = refl

new_in_use : (fd : ℕ) → in_use.socket ≡ returned fd → contains fd at_start.open_fds ≡ false
unfolding contains
new_in_use fd e = ground arith

launch-IsSettled_example : IsSettled in_use at_start
launch-IsSettled_example = launch-IsSettled in_use at_start new_in_use

-- Both threads of two add their queues, and the constructor reads begin() in between.
abbrev in_time : Starting
in_time = record { queue_list = [] ∷ ([] ∷ []); cursor = at_queue 0; set_up = true }
