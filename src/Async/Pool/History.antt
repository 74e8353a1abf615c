-- ===== src/Async/Pool/History.antt =====
-- Any interleaving of addTask, runTasks and cleanTasks of include/async/Loop.hpp.
use coro_iomultiplex.Prelude.{
  ℕ, ◌≡◌, ◌≢◌, sym, ap, ◌∙◌, subst, List, [], ◌∷◌, ◌++◌, none, some, arith, length, ltb, Bool, true,
  false, inl, inr, Bool-cases,
}
use coro_iomultiplex.Async.Pool.{
  Pool, bound_to, add_task, runs, run_tasks, contains, clean_tasks, clean_limit,
}
use coro_iomultiplex.Async.Pool.Bound.{IsBound}
use coro_iomultiplex.Async.Pool.Add.{add_task-Added, run_tasks-IsBound}
use coro_iomultiplex.Async.Pool.Clean.{Cleaned, clean_tasks-Cleaned}

-- The pool, and the tasks that were destroyed so far.
pub record World : Type 0 where
  pub pool : Pool
  pub destroyed : List ℕ

-- One call of any thread. What is done is seen when the call is made. Only a task that is not
-- destroyed is added: its coroutine adds itself, or is about to be resumed for the first time.
pub data Step (w : World) : World → Type 0 where
  adds :
      (t : ℕ) (p : Pool)
      → contains t w.destroyed ≡ false
      → add_task w.pool t ≡ some p
      → Step w (record w { pool = p })
  takes :
      (done : ℕ → Bool) (i t : ℕ) (p : Pool) (resumed : Bool)
      → run_tasks done w.pool i ≡ runs p t resumed
      → Step w (record w { pool = p })
  cleans :
      (done : ℕ → Bool)
      → Step w (record {
        pool = (clean_tasks done w.pool).0;
        destroyed = (clean_tasks done w.pool).1 ++ w.destroyed;
      })

pub data Reach (w : World) : World → Type 0 where
  here : Reach w w
  next : {u v : World} → Reach w u → Step u v → Reach w v

pub record IsSafe (w : World) : Type 0 where
  pub valid : IsBound w.pool
  pub unbound : (t : ℕ) → contains t w.destroyed ≡ true → bound_to t w.pool.binding ≡ none

pub contains-append :
    (t : ℕ) (xs ys : List ℕ)
    → contains t (xs ++ ys) ≡ true
    → contains t xs ≡ false
    → contains t ys ≡ true
unfolding contains
contains-append t [] ys h k = h
contains-append t (x ∷ xs) ys h k = ground (arith, contains-append t xs ys)

contains-ne : (t u : ℕ) (ts : List ℕ) → contains t ts ≡ true → contains u ts ≡ false → t ≢ u
contains-ne t u ts h k e = ground arith

pub adds-IsSafe :
    (w : World) (t : ℕ) (p : Pool)
    → contains t w.destroyed ≡ false
    → IsSafe w
    → add_task w.pool t ≡ some p
    → IsSafe (record w { pool = p })
adds-IsSafe w t p new s e =
    let (p', e', a) = add_task-Added w.pool t s.valid in
    let same : p' ≡ p = ground arith in
    subst (λ q. IsSafe (record w { pool = q })) same
      (record {
        valid = a.valid;
        unbound = λ u h. a.only u (contains-ne u t w.destroyed h new) ∙ s.unbound u h;
      })

pub clean_tasks-few :
    (done : ℕ → Bool) (p : Pool)
    → ltb (length p.binding) clean_limit ≡ true
    → clean_tasks done p ≡ (p, [])
unfolding clean_tasks
clean_tasks-few done p h = rw h

pub cleans-IsSafe :
    (done : ℕ → Bool) (w : World)
    → IsSafe w
    → IsSafe (record {
      pool = (clean_tasks done w.pool).0;
      destroyed = (clean_tasks done w.pool).1 ++ w.destroyed;
    })
cleans-IsSafe done w s = elim (Bool-cases (ltb (length w.pool.binding) clean_limit)) [
  | inl few ↦
      subst (λ (x : Pool × List ℕ). IsSafe (record { pool = x.0; destroyed = x.1 ++ w.destroyed }))
        (sym (clean_tasks-few done w.pool few)) (record { valid = s.valid; unbound = s.unbound })
  | inr many ↦
      let c : Cleaned done w.pool (clean_tasks done w.pool).0 (clean_tasks done w.pool).1 =
        clean_tasks-Cleaned done w.pool s.valid many in
      record {
        valid = c.valid;
        unbound = λ t h. elim (Bool-cases (contains t (clean_tasks done w.pool).1)) [
          | inl e ↦ (c.gone t e).1
          | inr e ↦
              let old : bound_to t w.pool.binding ≡ none =
                s.unbound t (contains-append t (clean_tasks done w.pool).1 w.destroyed h e) in
              elim (Bool-cases (done t)) [ inl d ↦ c.unbound_done t d | inr d ↦ c.others t d ∙ old ]
        ];
      }
]

pub Step-IsSafe : {w u : World} → Step w u → IsSafe w → IsSafe u
Step-IsSafe {w} (adds t p new e) s = adds-IsSafe w t p new s e
Step-IsSafe {w} (takes done i t p resumed e) s =
    let (rest, front, eq, r, b, v) = run_tasks-IsBound done w.pool i p t resumed s.valid e in
    record {
      valid = v;
      unbound = λ u h. ap (λ (q : Pool). bound_to u q.binding) eq ∙ s.unbound u h;
    }
Step-IsSafe {w} (cleans done) s = cleans-IsSafe done w s

Reach-IsSafe : {w u : World} → IsSafe w → Reach w u → IsSafe u
Reach-IsSafe s here = s
Reach-IsSafe s (next r st) = Step-IsSafe st (Reach-IsSafe s r)

-- Whatever calls the threads make, in any order, from a safe pool on: no thread takes a task that
-- was destroyed, so no destroyed coroutine is resumed.
pub run_tasks-not_destroyed :
    {w u : World} (done : ℕ → Bool) (i t : ℕ) (p : Pool) (resumed : Bool)
    → IsSafe w
    → Reach w u
    → run_tasks done u.pool i ≡ runs p t resumed
    → contains t u.destroyed ≡ false
run_tasks-not_destroyed {u = u} done i t p resumed s r e =
    let safe : IsSafe u = Reach-IsSafe s r in
    let (rest, front, eq, q, b, v) = run_tasks-IsBound done u.pool i p t resumed safe.valid e in
    elim (Bool-cases (contains t u.destroyed)) [
      | inr fine ↦ fine
      | inl bad ↦ cc (b, safe.unbound t bad)
    ]
