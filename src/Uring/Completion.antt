-- ===== src/Uring/Completion.antt =====
-- What the completions of one request wake: include/async/Uring.hpp with its awaiters.
use coro_iomultiplex.Prelude.{
  ℕ, ◌≡◌, refl, ap, true, false, List, [], ◌∷◌, ◌++◌, Expected, value, unexpected,
}
use coro_iomultiplex.Http.Socket.{Answer, returned, failed, errc, check_error}
use coro_iomultiplex.Uring.{
  UserData, Cqe, started, woken, completed, await_accept, await_io, prep, uring_code, sqe_busy,
}

-- The completions of one request in turn: the tasks that are added, and the user data at the end.
unfoldable pub woken_all : UserData → List Cqe → List ℕ × UserData
woken_all d [] = ([], d)
woken_all d (c ∷ cs) = let (ts, d') = woken_all (completed d c) cs in (woken d c ++ ts, d')

-- The completions of a multishot request: each but the last has IORING_CQE_F_MORE.
abbrev pub multishot_run : List (Answer ℕ) → Answer ℕ → List Cqe
multishot_run [] final = record { res = final; more = false } ∷ []
multishot_run (r ∷ rs) final = record { res = r; more = true } ∷ multishot_run rs final

-- The tasks of a handler on the results that are no errors.
unfoldable pub handled : (ℕ → ℕ) → List (Answer ℕ) → List ℕ
handled handler [] = []
handled handler (returned n ∷ rs) = handler n ∷ handled handler rs
handled handler (failed e ∷ rs) = handled handler rs

accepting : ℕ → (ℕ → ℕ) → Expected ℕ → UserData
accepting coro handler v = record {
  multishot = true;
  handle = coro;
  return_val = v;
  multishot_handler = handler;
}

woken_all-accepting :
    (coro : ℕ) (handler : ℕ → ℕ) (v : Expected ℕ) (rs : List (Answer ℕ)) (final : Answer ℕ)
    → ((woken_all (accepting coro handler v) (multishot_run rs final)).0
        ≡ handled handler (rs ++ (final ∷ [])) ++ (coro ∷ []))
      × ((woken_all (accepting coro handler v) (multishot_run rs final)).1.return_val
          ≡ check_error final)
unfolding woken_all woken completed started handled accepting
woken_all-accepting coro handler v [] (returned n) = (refl, refl)
woken_all-accepting coro handler v [] (failed e) = (refl, refl)
woken_all-accepting coro handler v (returned n ∷ rs) final =
    let rest = woken_all-accepting coro handler (value n) rs final in
    (ap (λ ts. handler n ∷ ts) rest.0, rest.1)
woken_all-accepting coro handler v (failed e ∷ rs) final =
    woken_all-accepting coro handler (unexpected (errc e)) rs final

-- A multishot accept that is submitted: over its completions, up to the one without
-- IORING_CQE_F_MORE, a handler is started for each accepted socket, in order, and the accepting
-- coroutine is added once, last; it reads the last result.
pub await_accept-woken_all :
    (coro : ℕ) (handler : ℕ → ℕ) (d : UserData) (rs : List (Answer ℕ)) (final : Answer ℕ)
    → ((woken_all (await_accept true coro handler d).0 (multishot_run rs final)).0
        ≡ handled handler (rs ++ (final ∷ [])) ++ (coro ∷ []))
      × ((woken_all (await_accept true coro handler d).0 (multishot_run rs final)).1.return_val
          ≡ check_error final)
unfolding await_accept prep accepting
await_accept-woken_all coro handler d rs final =
    woken_all-accepting coro handler d.return_val rs final

-- A send or a receive: with a free entry its coroutine waits, and the completion adds it once and
-- leaves it the result; with none it does not wait, and reads that the ring is busy.
pub await_io-woken :
    (coro : ℕ) (d : UserData) (cqe : Cqe)
    → ((await_io true coro d).1 ≡ true)
      × (woken (await_io true coro d).0 cqe ≡ coro ∷ [])
      × ((completed (await_io true coro d).0 cqe).return_val ≡ check_error cqe.res)
      × ((await_io false coro d).1 ≡ false)
      × ((await_io false coro d).0.return_val ≡ unexpected (uring_code sqe_busy))
unfolding await_io prep woken completed
await_io-woken coro d cqe = (refl, refl, refl, refl, refl)
