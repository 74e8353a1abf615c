-- ===== src/Http/Accept/Registered.antt =====
-- What acceptAll of include/http/Socket.hpp registers.
use coro_iomultiplex.Prelude.{
  ℕ, ◌≡◌, refl, All, map, ErrorCode, List, [], ◌∷◌, ◌++◌, true, false, arith, system_error,
}
use coro_iomultiplex.Http.Socket.{Answer, returned, failed}
use coro_iomultiplex.Http.Accept.{
  accept_waits, AcceptEnd, waiting, threw, AcceptRound, register, accept_all,
}

-- The rest of a round goes well.
abbrev pub IsAdded : Answer (Unit {0}) → Answer (Unit {0}) → Type 0
IsAdded (returned u) (returned v) = Unit
IsAdded (returned u) (failed errno) = ⊥
IsAdded (failed errno) added = ⊥

-- The round goes well, or accept only has nothing to give.
abbrev pub AreFine : Answer ℕ → Answer (Unit {0}) → Answer (Unit {0}) → Type 0
AreFine (returned fd) made added = IsAdded made added
AreFine (failed errno) made added = accept_waits errno ≡ true

abbrev pub GoesOn : AcceptRound → Type 0
GoesOn round = AreFine round.accepted round.made round.added

-- The socket of a round, in front of the others.
abbrev pub socket_of : Answer ℕ → List ℕ → List ℕ
socket_of (returned fd) fds = fd ∷ fds
socket_of (failed errno) fds = fds

-- The sockets that were accepted, in order.
abbrev pub sockets : List AcceptRound → List ℕ
sockets [] = []
sockets (round ∷ rounds) = socket_of round.accepted (sockets rounds)

abbrev pub with_task : (ℕ → ℕ) → ℕ → ℕ × ℕ
with_task handler fd = (fd, handler fd)

-- An errno of accept that acceptAll does not wait for ends it.
abbrev pub IsFatal : AcceptRound → ErrorCode → Type 0
IsFatal round e =
    (errno : ℕ) × (round.accepted ≡ failed errno)
    × (accept_waits errno ≡ false)
    × (e ≡ record { number = errno; category = system_error })

accept_all-GoesOn :
    (handler : ℕ → ℕ) (round : AcceptRound) (rounds : List AcceptRound) (fds : List ℕ)
    (x : AcceptEnd)
    → GoesOn round
    → accept_all handler rounds ≡ record { registered = map (with_task handler) fds; ends = x }
    → accept_all handler (round ∷ rounds)
      ≡ record { registered = map (with_task handler) (socket_of round.accepted fds); ends = x }
unfolding accept_all register
accept_all-GoesOn handler round rounds fds x h eq = ground arith

-- As long as accept fails only with the errors that are waited for, and fcntl and epoll_ctl do not
-- fail, acceptAll registers each accepted socket once, in order, each with its own handler's task,
-- and waits; and an error of accept that is not waited for ends it then, and no socket is accepted
-- any more.
pub accept_all-registered :
    (handler : ℕ → ℕ) (before after : List AcceptRound) (round : AcceptRound) (e : ErrorCode)
    → All GoesOn before
    → IsFatal round e
    → (accept_all handler before
        ≡ record { registered = map (with_task handler) (sockets before); ends = waiting })
      × (accept_all handler (before ++ (round ∷ after))
          ≡ record { registered = map (with_task handler) (sockets before); ends = threw e })
unfolding accept_all
accept_all-registered handler [] after round e good fatal = (refl, ground arith)
accept_all-registered handler (r ∷ before) after round e good fatal =
    let (now, then') = accept_all-registered handler before after round e good.1 fatal in
    (
      accept_all-GoesOn handler r before (sockets before) waiting good.0 now,
      accept_all-GoesOn handler r (before ++ (round ∷ after)) (sockets before) (threw e) good.0
          then',
    )
