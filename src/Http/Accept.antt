-- ===== src/Http/Accept.antt =====
-- acceptAll of include/http/Socket.hpp. What accept, fcntl and epoll_ctl give, and the task that the
-- handler makes for a socket, are arguments.
pub mod Registered
pub mod Tests
use coro_iomultiplex.Prelude.{
  ℕ, ◌==◌, List, [], ◌∷◌, Bool, true, false, ◌||◌, if◌then◌else◌, ErrorCode, system_error,
}
use coro_iomultiplex.Http.Socket.{Answer, returned, failed, errc}

-- Whether acceptAll waits for the next event on the errno: EAGAIN, EWOULDBLOCK, EMFILE, ENFILE.
unfoldable pub accept_waits : ℕ → Bool
accept_waits errno = errno == 11 || (errno == 11 || (errno == 24 || errno == 23))

-- How acceptAll stands: it waits, it threw, or the program was terminated.
pub data AcceptEnd : Type 0 where
  waiting terminated : AcceptEnd
  threw : ErrorCode → AcceptEnd

-- One round: what accept gives, and for a socket what fcntl of its constructor and epoll_ctl give.
pub record AcceptRound : Type 0 where
  pub accepted : Answer ℕ
  pub made : Answer (Unit {0})
  pub added : Answer (Unit {0})

-- What acceptAll registered, socket and task, in order, and how it stands.
pub record Accepting : Type 0 where
  pub registered : List (ℕ × ℕ)
  pub ends : AcceptEnd

-- A socket was registered with a task before the rest.
abbrev pub registers : ℕ → ℕ → Accepting → Accepting
registers fd task a = record a { registered = (fd, task) ∷ a.registered }

-- The rest of a round, on an accepted socket.
unfoldable pub register : ℕ → ℕ → Answer (Unit {0}) → Answer (Unit {0}) → Accepting → Accepting
register fd task (failed errno) added rest = record { registered = []; ends = threw (errc errno) }
register fd task (returned u) (failed errno) rest = record { registered = []; ends = terminated }
register fd task (returned u) (returned v) rest = registers fd task rest

-- acceptAll, over its rounds; it is resumed after each wait.
unfoldable pub accept_all : (ℕ → ℕ) → List AcceptRound → Accepting
unfolding register accept_waits
accept_all handler [] = record { registered = []; ends = waiting }
accept_all handler (round ∷ rounds) = elim round.accepted [
  | returned fd ↦ register fd (handler fd) round.made round.added (accept_all handler rounds)
  | failed errno ↦
      let rest = accept_all handler rounds in
      if accept_waits errno then rest else record {
        registered = [];
        ends = threw (record { number = errno; category = system_error });
      }
]
