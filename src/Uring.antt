-- ===== src/Uring.antt =====
-- uringInstance of include/async/Uring.hpp, the awaiters of include/uring/Socket.hpp and
-- asyncAccept. The kernel's queues are arguments: whether a submission entry is free, and the
-- completions in the order in which they are reaped.
pub mod Completion
pub mod Accepting
pub mod Wakes
pub mod Flights
pub mod Tests
use coro_iomultiplex.Prelude.{
  ℕ, Bool, true, false, ◌||◌, not, List, [], ◌∷◌, ◌++◌, Option, none, some, if◌then◌else◌, Text,
  codes, Expected, value, unexpected, ErrorCode, uring_error, same_error,
}
use coro_iomultiplex.Http.Socket.{
  Answer, returned, failed, errc, try_again, would_block, operation_canceled, check_error,
}
use coro_iomultiplex.Async.Pool.{Pool, add_tasks}

-- enum class uringErr.
pub data UringErr : Type 0 where
  success sqe_busy : UringErr

-- static_cast<int>.
abbrev pub uring_number : UringErr → ℕ
uring_number success = 0
uring_number sqe_busy = 1

-- uringErrCategory::message.
abbrev pub uring_message : UringErr → Text
uring_message success = codes "success"
uring_message sqe_busy = codes "sqe is busy"

-- make_error_code(uringErr).
abbrev pub uring_code : UringErr → ErrorCode
uring_code e = record { number = uring_number e; category = uring_error }

-- uringInstance::userData; `multishot_handler` gives the handle of the detached task that the
-- handler makes for a result.
pub record UserData : Type 0 where
  pub multishot : Bool
  pub handle : ℕ
  pub return_val : Expected ℕ
  pub multishot_handler : ℕ → ℕ

-- io_uring_cqe: `res`, and whether IORING_CQE_F_MORE is set.
pub record Cqe : Type 0 where
  pub res : Answer ℕ
  pub more : Bool

-- The task that a successful multishot completion starts.
unfoldable pub started : UserData → Answer ℕ → List ℕ
started caller (returned n) = caller.multishot_handler n ∷ []
started caller (failed e) = []

-- The tasks that reapIOs adds for a completion, in order.
unfoldable pub woken : UserData → Cqe → List ℕ
unfolding started
woken caller cqe =
    if not caller.multishot
    then caller.handle ∷ []
    else started caller cqe.res ++ (if not cqe.more then caller.handle ∷ [] else [])

-- The user data after a completion.
unfoldable pub completed : UserData → Cqe → UserData
completed caller cqe = record caller { return_val = check_error cqe.res }

-- reapIOs on a completion.
unfoldable pub reap : Pool → UserData → Cqe → Option (Pool × UserData)
unfolding woken completed add_tasks
reap p caller cqe = elim (add_tasks p (woken caller cqe)) [
  | none ↦ none
  | some p' ↦ some (p', completed caller cqe)
]

-- What io_uring_peek_cqe gives.
pub data Peeked : Type 0 where
  peek_failed : ℕ → Peeked
  no_entry : Peeked
  entry : UserData → Cqe → Peeked

-- A round of reapIOs: it gives its turn away, it throws, or it reaps.
pub data Round : Type 0 where
  yields : Round
  throws : ErrorCode → Round
  reaped : Option (Pool × UserData) → Round

-- The body of the loop of reapIOs.
unfoldable pub reap_round : Pool → Peeked → Round
unfolding reap
reap_round p (peek_failed e) = if same_error (errc e) try_again then yields else throws (errc e)
reap_round p no_entry = yields
reap_round p (entry caller cqe) = reaped (reap p caller cqe)

-- prep_send, prep_recv and prep_multishot_accept_and_process: what is submitted, if there is an
-- entry.
unfoldable pub prep : Bool → Expected (Unit {0})
prep free = if free then value tt else unexpected (uring_code sqe_busy)

-- await_suspend of sendAwaiter and recvAwaiter: the user data, and whether the caller waits.
unfoldable pub await_io : Bool → ℕ → UserData → UserData × Bool
unfolding prep
await_io free coro d = elim (prep free) [
  | value u ↦ (record d { handle = coro; multishot = false }, true)
  | unexpected e ↦ (record d { handle = coro; multishot = false; return_val = unexpected e }, false)
]

-- await_suspend of multishotAcceptAwaiter.
unfoldable pub await_accept : Bool → ℕ → (ℕ → ℕ) → UserData → UserData × Bool
unfolding prep
await_accept free coro handler d = elim (prep free) [
  | value u ↦ (record d { handle = coro; multishot = true; multishot_handler = handler }, true)
  | unexpected e ↦ (
    record d {
      handle = coro;
      multishot = true;
      multishot_handler = handler;
      return_val = unexpected e;
    },
    false,
  )
]

-- Whether asyncAccept goes on after an accept; else it throws the error.
unfoldable pub accepts_again : Expected ℕ → Bool
accepts_again (value n) = true
accepts_again (unexpected e) =
    same_error e would_block
    || (same_error e try_again
        || (same_error e (uring_code sqe_busy) || same_error e operation_canceled))
