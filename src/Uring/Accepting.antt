-- ===== src/Uring/Accepting.antt =====
-- asyncAccept of include/uring/Socket.hpp over its multishot requests.
use coro_iomultiplex.Prelude.{
  ℕ, ◌≡◌, refl, sym, ap, ◌∙◌, subst, Bool, true, false, All, List, [], ◌∷◌, ◌++◌, Option, none,
  some, if◌then◌else◌, Expected, value, unexpected, ErrorCode, arith,
}
use mathlib.Core.List.{append_assoc, append-nil}
use coro_iomultiplex.Http.Socket.{Answer, check_error}
use coro_iomultiplex.Uring.{UserData, await_accept, accepts_again, prep, uring_code, sqe_busy}
use coro_iomultiplex.Uring.Completion.{woken_all, multishot_run, handled, await_accept-woken_all}

-- One request: whether there is a free entry for it, and the results of its completions, of which
-- `last` is the one without IORING_CQE_F_MORE.
pub record AcceptRequest : Type 0 where
  pub free : Bool
  pub results : List (Answer ℕ)
  pub last : Answer ℕ

-- What asyncAccept brought about: the tasks that were added, in order, and what it threw, if it did.
pub record Accepted : Type 0 where
  pub tasks : List ℕ
  pub threw : Option ErrorCode

-- Tasks were added before the rest.
abbrev pub added_before : List ℕ → Accepted → Accepted
added_before ts a = record a { tasks = ts ++ a.tasks }

-- The loop goes on with the rest, or throws the error.
unfoldable pub go_on : Expected ℕ → Accepted → Accepted
go_on (value n) rest = rest
go_on (unexpected e) rest =
    if accepts_again (unexpected e) then rest else record { tasks = []; threw = some e }

-- The user data behind the await of a request, and the tasks that its completions added.
unfoldable pub accept_request : ℕ → (ℕ → ℕ) → UserData → AcceptRequest → List ℕ × UserData
accept_request coro handler d r =
    let (d', waits) = await_accept r.free coro handler d in
    if waits then woken_all d' (multishot_run r.results r.last) else ([], d')

-- asyncAccept in the coroutine `coro`, over its requests; `d` is the data of a new awaiter.
unfoldable pub async_accept : ℕ → (ℕ → ℕ) → UserData → List AcceptRequest → Accepted
unfolding go_on accept_request
async_accept coro handler d [] = record { tasks = []; threw = none }
async_accept coro handler d (r ∷ requests) =
    let (ts, d') = accept_request coro handler d r in
    added_before ts (go_on d'.return_val (async_accept coro handler d requests))

-- The request finds no entry, or its last result is one that asyncAccept goes on after.
abbrev pub IsFine : AcceptRequest → Type 0
IsFine r = (if r.free then accepts_again (check_error r.last) else true) ≡ true

-- The tasks of a request: a handler for each accepted socket, and then the accepting coroutine.
abbrev pub tasks_of : ℕ → (ℕ → ℕ) → AcceptRequest → List ℕ
tasks_of coro handler r =
    if r.free then handled handler (r.results ++ (r.last ∷ [])) ++ (coro ∷ []) else []

abbrev pub all_tasks : ℕ → (ℕ → ℕ) → List AcceptRequest → List ℕ
all_tasks coro handler [] = []
all_tasks coro handler (r ∷ requests) = tasks_of coro handler r ++ all_tasks coro handler requests

go_on-again : (v : Expected ℕ) (rest : Accepted) → accepts_again v ≡ true → go_on v rest ≡ rest
unfolding go_on
go_on-again (value n) rest h = refl
go_on-again (unexpected e) rest h = rw h refl

go_on-fatal :
    (v : Expected ℕ) (rest : Accepted) (e : ErrorCode)
    → v ≡ unexpected e
    → accepts_again (unexpected e) ≡ false
    → go_on v rest ≡ record { tasks = []; threw = some e }
unfolding go_on
go_on-fatal (value n) rest e h k = absurd (ground arith)
go_on-fatal (unexpected d) rest e h k = ground (arith, h, k)

busy-again : accepts_again (unexpected (uring_code sqe_busy)) ≡ true
unfolding accepts_again
busy-again = refl

-- A request brings about its tasks, and its result is the last one, or that there is no entry.
accept_request-tasks :
    (coro : ℕ) (handler : ℕ → ℕ) (d : UserData) (free : Bool) (rs : List (Answer ℕ))
    (last : Answer ℕ)
    → let r : AcceptRequest = record { free = free; results = rs; last = last } in
      ((accept_request coro handler d r).0 ≡ tasks_of coro handler r)
      × ((accept_request coro handler d r).1.return_val
          ≡ (if free then check_error last else unexpected (uring_code sqe_busy)))
unfolding accept_request await_accept prep
accept_request-tasks coro handler d true rs last = await_accept-woken_all coro handler d rs last
accept_request-tasks coro handler d false rs last = (refl, refl)

IsFine-again :
    (free : Bool) (last : Answer ℕ)
    → (if free then accepts_again (check_error last) else true) ≡ true
    → accepts_again (if free then check_error last else unexpected (uring_code sqe_busy)) ≡ true
IsFine-again true last h = h
IsFine-again false last h = busy-again

-- The loop over one fine request.
async_accept-IsFine :
    (coro : ℕ) (handler : ℕ → ℕ) (d : UserData) (r : AcceptRequest) (requests : List AcceptRequest)
    → IsFine r
    → async_accept coro handler d (r ∷ requests)
      ≡ added_before (tasks_of coro handler r) (async_accept coro handler d requests)
unfolding async_accept
async_accept-IsFine coro handler d r requests fine =
    let (tasks, got) = accept_request-tasks coro handler d r.free r.results r.last in
    let again = subst (λ v. accepts_again v ≡ true) (sym got) (IsFine-again r.free r.last fine) in
    λ i. added_before (tasks i) (
      go_on-again (accept_request coro handler d r).1.return_val
        (async_accept coro handler d requests) again i)

-- An error that asyncAccept does not go on after.
abbrev pub IsFatal : AcceptRequest → ErrorCode → Type 0
IsFatal r e =
    (r.free ≡ true) × (check_error r.last ≡ unexpected e) × (accepts_again (unexpected e) ≡ false)

-- asyncAccept over its multishot requests: as long as each finds no entry, or ends with a socket or
-- an error that is waited for, it starts a handler for each accepted socket, in order, is added
-- itself once at the end of each request, and throws nothing; and it throws the first other error,
-- after the handlers of that request, and submits no further one.
pub async_accept-tasks :
    (coro : ℕ) (handler : ℕ → ℕ) (d : UserData) (before after : List AcceptRequest)
    (r : AcceptRequest) (e : ErrorCode)
    → All IsFine before
    → IsFatal r e
    → (async_accept coro handler d before
        ≡ record { tasks = all_tasks coro handler before; threw = none })
      × (async_accept coro handler d (before ++ (r ∷ after)) ≡ record {
        tasks = all_tasks coro handler before ++ tasks_of coro handler r;
        threw = some e;
      })
unfolding async_accept
async_accept-tasks coro handler d [] after r e fine (free, last, fatal) =
    let (tasks, got) = accept_request-tasks coro handler d r.free r.results r.last in
    let stops =
      got
      ∙ ap (λ f. if f then check_error r.last else unexpected (uring_code sqe_busy)) free
      ∙ last in
    (
      refl,
      (λ i. added_before (tasks i) (
            go_on-fatal (accept_request coro handler d r).1.return_val
              (async_accept coro handler d after) e stops fatal i))
          ∙ ap (λ ts. record { tasks = ts; threw = some e }) (append-nil (tasks_of coro handler r)),
    )
async_accept-tasks coro handler d (b ∷ before) after r e fine fatal =
    let (now, then') = async_accept-tasks coro handler d before after r e fine.1 fatal in
    (
      async_accept-IsFine coro handler d b before fine.0
          ∙ ap (added_before (tasks_of coro handler b)) now,
      async_accept-IsFine coro handler d b (before ++ (r ∷ after)) fine.0
          ∙ ap (added_before (tasks_of coro handler b)) then'
          ∙ ap (λ ts. record { tasks = ts; threw = some e })
              (sym (
                append_assoc (tasks_of coro handler b) (all_tasks coro handler before)
                  (tasks_of coro handler r))),
    )
