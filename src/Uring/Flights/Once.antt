-- ===== src/Uring/Flights/Once.antt =====
-- No coroutine is in two places: include/async/Loop.hpp, include/async/Uring.hpp and
-- include/uring/Socket.hpp together.
use coro_iomultiplex.Prelude.{
  ℕ, ◌+◌, ◌≤◌, ◌≡◌, refl, sym, ap, ◌∙◌, subst, ◌==◌, ◌&&◌, not, if◌then◌else◌, Bool, true, false,
  [], ◌∷◌, ◌++◌, All, some, arith, get_elem?, set, sum_of, sum_of-set, sum_of-remove_at,
  same_number, count, remove_at, Expected, Bool-cases, Option-cases, inl, inr,
}
use coro_iomultiplex.Http.Socket.{Answer, returned, failed}
use coro_iomultiplex.Async.Pool.{Pool, add_tasks}
use coro_iomultiplex.Async.Pool.Counts.{add_task-queued, add_tasks-queued, run_tasks-queued}
use coro_iomultiplex.Uring.{
  UserData, Cqe, started, woken, completed, reap, prep, await_io, await_accept,
}
use coro_iomultiplex.Uring.Flights.{
  idle, leaves, works, Scene, at_place, in_flight, in_await, tally, news, goes_on, with_result,
  Step, Reach, here, next, takes, skips, ends, returns, awaits, resumes, yields, spawns, submits,
  accepts, finds_busy, completes, IsApart,
}

-- A coroutine more, if it was nowhere.
fresh-le : (n t u : ℕ) → n ≤ 1 → (u ≡ t → n ≡ 0) → n + same_number t u ≤ 1
fresh-le n t u le new = elim (Bool-cases (u == t)) [
  | inl e ↦ ground (arith, new (ground arith))
  | inr e ↦ ground arith
]

await_io-handle : (t : ℕ) (d d' : UserData) → await_io true t d ≡ (d', true) → d'.handle ≡ t
unfolding await_io prep
await_io-handle t d d' e = sym (ap (λ x. x.0.handle) e)

await_accept-handle :
    (t : ℕ) (handler : ℕ → ℕ) (d d' : UserData)
    → await_accept true t handler d ≡ (d', true)
    → d'.handle ≡ t
unfolding await_accept prep
await_accept-handle t handler d d' e = sym (ap (λ x. x.0.handle) e)

pub reap-added :
    (p p' : Pool) (caller caller' : UserData) (cqe : Cqe)
    → reap p caller cqe ≡ some (p', caller')
    → (add_tasks p (woken caller cqe) ≡ some p') × (completed caller cqe ≡ caller')
unfolding reap
reap-added p p' caller caller' cqe h = elim (Option-cases (add_tasks p (woken caller cqe))) [
  | inl e ↦ absurd (ground arith)
  | inr (q, e) ↦ (ground arith, ground arith)
]

-- What a completion adds: the new coroutines, and the caller unless the request goes on.
count-woken :
    (t : ℕ) (caller : UserData) (cqe : Cqe)
    → count t (woken caller cqe)
      ≡ count t (news caller cqe) + (if goes_on caller cqe then 0 else same_number t caller.handle)
unfolding woken started sum_of
count-woken t caller cqe = go caller.multishot cqe.more cqe.res
  where
    go :
        (multishot more : Bool) (res : Answer ℕ)
        → count t (
            if not multishot
            then caller.handle ∷ []
            else started caller res ++ (if not more then caller.handle ∷ [] else []))
          ≡ count t (if multishot then started caller res else [])
            + (if multishot && more then 0 else same_number t caller.handle)
    go false more res = omega arith
    go true true (returned n) = omega arith
    go true true (failed e) = omega arith
    go true false (returned n) = omega arith
    go true false (failed e) = omega arith

count-going :
    (t : ℕ) (caller : UserData) (cqe : Cqe)
    → goes_on caller cqe ≡ true
    → count t (woken caller cqe) ≡ count t (news caller cqe) + 0
count-going t caller cqe e =
    count-woken t caller cqe
    ∙ ap (λ b. count t (news caller cqe) + (if b then 0 else same_number t caller.handle)) e

pub count-ending :
    (t : ℕ) (caller : UserData) (cqe : Cqe)
    → goes_on caller cqe ≡ false
    → count t (woken caller cqe) ≡ count t (news caller cqe) + same_number t caller.handle
count-ending t caller cqe e =
    count-woken t caller cqe
    ∙ ap (λ b. count t (news caller cqe) + (if b then 0 else same_number t caller.handle)) e

started-apart :
    (s : Scene) (t : ℕ) (caller : UserData) (res : Answer ℕ)
    → tally t s ≤ 1
    → All (λ u. tally u s ≡ 0) (started caller res)
    → tally t s + count t (started caller res) ≤ 1
unfolding started sum_of
started-apart s t caller (returned n) le (new, rest) = omega (
  arith,
  fresh-le (tally t s) t (caller.multishot_handler n) le (λ e. subst (λ u. tally u s ≡ 0) e new),
)
started-apart s t caller (failed e) le new = omega arith

news-apart :
    (s : Scene) (t : ℕ) (caller : UserData) (cqe : Cqe)
    → tally t s ≤ 1
    → All (λ u. tally u s ≡ 0) (news caller cqe)
    → tally t s + count t (news caller cqe) ≤ 1
news-apart s t caller cqe le new = elim (Bool-cases caller.multishot) [
  | inl e ↦
      let same : news caller cqe ≡ started caller cqe.res = rw e refl in
      let new' = subst (All (λ u. tally u s ≡ 0)) same new in
      subst (λ l. tally t s + count t l ≤ 1) (sym same) (started-apart s t caller cqe.res le new')
  | inr e ↦
      let same : news caller cqe ≡ [] = rw e refl in
      subst (λ l. tally t s + count t l ≤ 1) (sym same) (unfold sum_of in omega arith)
]

completes-IsApart :
    (s : Scene) (k t : ℕ) (caller caller' : UserData) (cqe : Cqe) (p : Pool)
    (results : ℕ → Expected ℕ)
    → IsApart s
    → get_elem? s.flying k ≡ some caller
    → All (λ u. tally u s ≡ 0) (news caller cqe)
    → reap s.pool caller cqe ≡ some (p, caller')
    → tally t (record s {
      pool = p;
      flying = if goes_on caller cqe then s.flying else remove_at k s.flying;
      results = results;
    })
      ≤ 1
unfolding tally
completes-IsApart s k t caller caller' cqe p results apart at new h =
    let (added, same) = reap-added s.pool p caller caller' cqe h in
    let more = add_tasks-queued (woken caller cqe) s.pool p t added in
    let less = sum_of-remove_at (in_flight t) s.flying k caller at in
    let once = news-apart s t caller cqe (apart t) new in
    elim (Bool-cases (goes_on caller cqe)) [
      | inl e ↦ rw e (omega (arith, more, once, count-going t caller cqe e))
      | inr e ↦ rw e (omega (arith, more, less, once, count-ending t caller cqe e))
    ]

-- A coroutine that a thread gives up, and that waits for a completion.
flying-IsApart :
    (s : Scene) (i t u : ℕ) (d : UserData)
    → IsApart s
    → get_elem? s.places i ≡ some (works u)
    → d.handle ≡ u
    → tally t (record s { places = set s.places i leaves; flying = d ∷ s.flying }) ≤ 1
unfolding tally sum_of
flying-IsApart s i t u d apart at e =
    omega
      (arith, sum_of-set (at_place t) s.places i (works u) leaves at, apart t, ap (same_number t) e)

pub Step-IsApart : {s s' : Scene} → Step s s' → IsApart s → IsApart s'
unfolding tally sum_of
Step-IsApart {s} (takes done i u p at e) apart t = omega (
  arith,
  apart t,
  run_tasks-queued done s.pool p i u t true e,
  sum_of-set (at_place t) s.places i idle (works u) at,
)
Step-IsApart {s} (skips done i u p at e) apart t =
    omega (arith, apart t, run_tasks-queued done s.pool p i u t false e)
Step-IsApart {s} (ends i u at free) apart t =
    omega (arith, apart t, sum_of-set (at_place t) s.places i (works u) idle at)
Step-IsApart {s} (returns i at) apart t =
    omega (arith, apart t, sum_of-set (at_place t) s.places i leaves idle at)
Step-IsApart {s} (awaits i u v at new) apart t = omega (
  arith,
  sum_of-set (at_place t) s.places i (works u) (works v) at,
  fresh-le (tally t s) t v (apart t) (λ k. subst (λ x. tally x s ≡ 0) k new),
)
Step-IsApart {s} (resumes i k w at waits) apart t = omega (
  arith,
  apart t,
  sum_of-set (at_place t) s.places i (works w.callee) (works w.caller) at,
  sum_of-remove_at (in_await t) s.awaiting k w waits,
)
Step-IsApart {s} (yields i u p at e) apart t = omega (
  arith,
  apart t,
  add_task-queued s.pool p u t e,
  sum_of-set (at_place t) s.places i (works u) leaves at,
)
Step-IsApart {s} (spawns u p new e) apart t = omega (
  arith,
  add_task-queued s.pool p u t e,
  fresh-le (tally t s) t u (apart t) (λ k. subst (λ v. tally v s ≡ 0) k new),
)
Step-IsApart {s} (submits i u d d' at e) apart t =
    flying-IsApart s i t u d' apart at (await_io-handle u d d' e)
Step-IsApart {s} (accepts i u handler d d' at e) apart t =
    flying-IsApart s i t u d' apart at (await_accept-handle u handler d d' e)
Step-IsApart {s} (finds_busy i u d d' at e) apart t = apart t
Step-IsApart {s} (completes k caller caller' cqe p at new e) apart t =
    completes-IsApart s k t caller caller' cqe p
      (with_result caller.handle caller'.return_val s.results) apart at new e

-- However the threads, the coroutines, the reaping task and the kernel move, also by co_await of a
-- Task and the return to its caller: a coroutine is never in two places. It is once in the queues, or
-- on one thread, or waits for one completion or one other coroutine, or none of these; where a new
-- coroutine is one that is in no place.
pub Reach-IsApart : {s s' : Scene} → IsApart s → Reach s s' → IsApart s'
Reach-IsApart apart here = apart
Reach-IsApart apart (next r step) = Step-IsApart step (Reach-IsApart apart r)
