-- ===== src/Setup.antt =====
-- How the servers are set up: the constructors and listen of serverSocket in
-- include/http/Socket.hpp, of epollInstance in include/async/Epoll.hpp and of uringInstance in
-- include/async/Uring.hpp. What each system call gives is an argument.
pub mod Programs
pub mod Launched
pub mod Starts
pub mod Tests
use coro_iomultiplex.Prelude.{
  ℕ, ◌+◌, ◌-◌, ◌==◌, Bool, true, false, List, [], ◌∷◌, Expected, value, unexpected, ErrorCode,
}
use coro_iomultiplex.Http.Socket.{Answer, check_error}
use coro_iomultiplex.Async.Pool.{erase_if}
use Prim.Native.Nat.{bit_or}

-- What was done to a descriptor.
pub data Mark : Type 0 where
  option : ℕ → ℕ → Mark
  non_blocking is_bound listening : ℕ → Mark

-- The open descriptors, the address lists of getaddrinfo that are not freed, and what was done to
-- descriptors, the last first.
pub record System : Type 0 where
  pub open_fds : List ℕ
  pub lists : ℕ
  pub marks : List Mark

pub data Thrown : Type 0 where
  system_error : ErrorCode → Thrown
  runtime_error : Thrown

pub data Outcome (A : Type 0) : Type 0 where
  gives : A → Outcome A
  throws : Thrown → Outcome A

abbrev pub M : Type 0 → Type 0
M A = System → Outcome A × System

infixl 5 ◌>>=◌ ◌>>◌
abbrev pub ◌>>=◌ : {A B : Type 0} → M A → (A → M B) → M B
◌>>=◌ m f s = elim (m s).0 [ gives a ↦ f a (m s).1 | throws e ↦ (throws e, (m s).1) ]

abbrev pub ◌>>◌ : {B : Type 0} → M (Unit {0}) → M B → M B
m >> k = m >>= λ _. k

abbrev pub pure : {A : Type 0} → A → M A
pure a s = (gives a, s)

abbrev pub modify : (System → System) → M (Unit {0})
modify f s = (gives tt, f s)

-- checkError, and throwUnexpected on its error.
unfoldable pub checked : {A : Type 0} → Answer A → M A
checked answer s = elim (check_error answer) [
  | value a ↦ (gives a, s)
  | unexpected e ↦ (throws (system_error e), s)
]

abbrev pub mark : Mark → M (Unit {0})
mark m = modify (λ s. record s { marks = m ∷ s.marks })

-- close.
unfoldable pub close : ℕ → System → System
close fd s = record s { open_fds = erase_if (λ n. n == fd) s.open_fds }

-- ~socketBase, when what follows the construction of the descriptor throws.
unfoldable pub closes_if_thrown : {A : Type 0} → ℕ → M A → M A
closes_if_thrown fd m s = elim (m s).0 [
  | gives a ↦ (gives a, (m s).1)
  | throws e ↦ (throws e, close fd (m s).1)
]

-- What getaddrinfo gives: a list, or an error of its own, which it returns, and what errno holds then.
pub data NameLookup : Type 0 where
  found : NameLookup
  not_found : ℕ → ℕ → NameLookup

-- What checkError reads of it: any error is returned as a negative number, and errno is read.
abbrev pub as_answer : NameLookup → Answer (Unit {0})
as_answer found = Answer.returned tt
as_answer (not_found code errno) = Answer.failed errno

-- What the system calls of the set-up of a server give.
pub record Calls : Type 0 where
  pub addresses : NameLookup
  pub socket : Answer ℕ
  pub options : Answer (Unit {0})
  pub flags : Answer (Unit {0})
  pub bind : Answer (Unit {0})
  pub listen : Answer (Unit {0})

-- The numbers of SO_REUSEADDR and SO_REUSEPORT on Linux, which are not bits of a mask.
abbrev pub so_reuseaddr : ℕ
so_reuseaddr = 2

abbrev pub so_reuseport : ℕ
so_reuseport = 15

-- setsockopt, whose error is dropped.
unfoldable pub set_options : Answer (Unit {0}) → ℕ → M (Unit {0})
set_options (Answer.returned u) fd = mark (option fd (bit_or so_reuseaddr so_reuseport))
set_options (Answer.failed e) fd = pure tt

-- The part of the constructor of serverSocket from the call of socket on.
unfoldable pub bind_socket : Calls → ℕ → M ℕ
unfolding checked set_options
bind_socket calls fd = do
  set_options calls.options fd
  _ ← checked calls.flags
  mark (non_blocking fd)
  _ ← checked calls.bind
  mark (is_bound fd)
  modify (λ s. record s { lists = s.lists - 1 })
  pure fd

-- serverSocket::serverSocket.
unfoldable pub server_socket : Calls → M ℕ
unfolding checked bind_socket closes_if_thrown
server_socket calls = do
  _ ← checked (as_answer calls.addresses)
  modify (λ s. record s { lists = s.lists + 1 })
  fd ← checked calls.socket
  modify (λ s. record s { open_fds = fd ∷ s.open_fds })
  closes_if_thrown fd (bind_socket calls fd)

-- serverSocket::listen.
unfoldable pub listen_on : Calls → ℕ → M (Unit {0})
unfolding checked
listen_on calls fd = do _ ← checked calls.listen; mark (listening fd)

-- The server of a program: `std::make_unique<serverSocket>(port)` and `server->listen()`. The server
-- is destroyed when listen throws.
unfoldable pub launch : Calls → M ℕ
unfolding server_socket listen_on closes_if_thrown
launch calls = do fd ← server_socket calls; closes_if_thrown fd (listen_on calls fd); pure fd

-- epollInstance::epollInstance.
unfoldable pub epoll_instance : Answer ℕ → M ℕ
unfolding checked
epoll_instance answer = do
  fd ← checked answer
  modify (λ s. record s { open_fds = fd ∷ s.open_fds })
  pure fd

-- uringInstance::uringInstance; the answer is the descriptor of the ring.
unfoldable pub uring_instance : Answer ℕ → M ℕ
uring_instance (Answer.returned fd) s = (gives fd, record s { open_fds = fd ∷ s.open_fds })
uring_instance (Answer.failed e) s = (throws runtime_error, s)
