-- ===== src/Uring/Flights/Read.antt =====
-- What a coroutine reads behind the await of a request of include/uring/Socket.hpp.
use coro_iomultiplex.Prelude.{
  ℕ, ◌≤◌, ◌≡◌, refl, ap, ◌∙◌, subst, ◌==◌, if◌then◌else◌, false, All, some, arith, get_elem?,
  sum_of-set, sum_of-remove_at, same_number, remove_at, Expected, Bool-cases, inl, inr,
}
use coro_iomultiplex.Http.Socket.{check_error}
use coro_iomultiplex.Async.Pool.{Pool}
use coro_iomultiplex.Async.Pool.Counts.{queued, add_tasks-queued}
use coro_iomultiplex.Uring.{UserData, Cqe, completed, woken, reap}
use coro_iomultiplex.Uring.Flights.{
  idle, works, Scene, at_place, in_flight, tally, news, goes_on, with_result, Step, takes, skips,
  ends, returns, awaits, resumes, yields, spawns, submits, accepts, finds_busy, completes, IsApart,
}
use coro_iomultiplex.Uring.Flights.Once.{reap-added, count-ending, Step-IsApart}

-- Steps during which a coroutine stays in a queue.
pub data StaysQueued (t : ℕ) (s : Scene) : Scene → Type 0 where
  here : StaysQueued t s s
  next : {u v : Scene} → StaysQueued t s u → 1 ≤ queued t u.pool → Step u v → StaysQueued t s v

same_number_self : (t : ℕ) → same_number t t ≡ 1
same_number_self t = ground arith

-- A coroutine that is queued is on no thread, and waits for nothing.
not_working :
    (s : Scene) (i t : ℕ)
    → IsApart s
    → 1 ≤ queued t s.pool
    → get_elem? s.places i ≡ some (works t)
    → ⊥
unfolding tally
not_working s i t apart q at = absurd (
    omega
      (arith, apart t, sum_of-set (at_place t) s.places i (works t) idle at, same_number_self t))

not_flying :
    (s : Scene) (k t : ℕ) (caller : UserData)
    → IsApart s
    → 1 ≤ queued t s.pool
    → get_elem? s.flying k ≡ some caller
    → caller.handle ≡ t
    → ⊥
unfolding tally
not_flying s k t caller apart q at e = absurd (
    omega (
      arith,
      apart t,
      sum_of-remove_at (in_flight t) s.flying k caller at,
      same_number_self t,
      ap (same_number t) e,
    ))

with_result-other :
    (t u : ℕ) (v : Expected ℕ) (results : ℕ → Expected ℕ)
    → (t ≡ u → ⊥)
    → with_result t v results u ≡ results u
with_result-other t u v results ne = elim (Bool-cases (u == t)) [
  | inl e ↦ absurd (ne (ground arith))
  | inr e ↦ rw e refl
]

-- Nothing touches the result of a coroutine that is queued.
Step-results :
    {u v : Scene} (t : ℕ) → IsApart u → 1 ≤ queued t u.pool → Step u v → v.results t ≡ u.results t
Step-results t apart q (takes done i w p at e) = refl
Step-results t apart q (skips done i w p at e) = refl
Step-results t apart q (ends i w at free) = refl
Step-results t apart q (awaits i w x at new) = refl
Step-results t apart q (resumes i k w at waits) = refl
Step-results t apart q (returns i at) = refl
Step-results t apart q (yields i w p at e) = refl
Step-results t apart q (spawns w p new e) = refl
Step-results t apart q (submits i w d d' at e) = refl
Step-results t apart q (accepts i w handler d d' at e) = refl
Step-results {u} t apart q (finds_busy i w d d' at e) =
    with_result-other w t d'.return_val u.results
      (λ k. not_working u i t apart q (subst (λ x. get_elem? u.places i ≡ some (works x)) k at))
Step-results {u} t apart q (completes k caller caller' cqe p at new e) =
    with_result-other caller.handle t caller'.return_val u.results
      (λ same. not_flying u k t caller apart q at same)

StaysQueued-results :
    (t : ℕ) {s v : Scene} → IsApart s → StaysQueued t s v → (v.results t ≡ s.results t) × IsApart v
StaysQueued-results t apart here = (refl, apart)
StaysQueued-results t apart (next before q step) =
    let (same, apart') = StaysQueued-results t apart before in
    (Step-results t apart' q step ∙ same, Step-IsApart step apart')

-- A completion that ends a request puts its coroutine into a queue, with the completion's result; and
-- for as long as the coroutine stays there, whatever else happens, that is what await_resume gives.
pub completed_read :
    (s v : Scene) (k : ℕ) (caller caller' : UserData) (cqe : Cqe) (p : Pool)
    (at : get_elem? s.flying k ≡ some caller) (new : All (λ t. tally t s ≡ 0) (news caller cqe))
    (e : reap s.pool caller cqe ≡ some (p, caller'))
    → IsApart s
    → goes_on caller cqe ≡ false
    → StaysQueued caller.handle
        (record s {
          pool = p;
          flying = if goes_on caller cqe then s.flying else remove_at k s.flying;
          results = with_result caller.handle caller'.return_val s.results;
        })
        v
    → (queued caller.handle p ≡ 1) × (v.results caller.handle ≡ check_error cqe.res)
unfolding completed
completed_read s v k caller caller' cqe p at new e apart last stays =
    let t = caller.handle in
    let step = completes k caller caller' cqe p at new e in
    let apart' = Step-IsApart step apart in
    let (added, same) = reap-added s.pool p caller caller' cqe e in
    let more = add_tasks-queued (woken caller cqe) s.pool p t added in
    let ending = count-ending t caller cqe last in
    let (kept, apart'') = StaysQueued-results t apart' stays in
    let bound : queued t p ≤ 1 = unfold tally in omega (arith, apart' t) in
    (omega (arith, more, ending, bound, same_number_self t), kept ∙ ground (arith, same))
