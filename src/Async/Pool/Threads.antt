-- ===== src/Async/Pool/Threads.antt =====
-- Which task each thread of include/async/Loop.hpp is resuming, beside the pool. Tasks are added by
-- anyone at any time, also by themselves before they have returned. Thread `i` serves the queue with
-- the number `i`.
mod Tests
use coro_iomultiplex.Prelude.{
  ℕ, zero, suc, ◌<◌, ◌≡◌, ◌≢◌, refl, sym, ap, ◌∙◌, subst, Bool, true, false, List, [], ◌∷◌, Option,
  none, some, arith, get_elem?, get_elem?-set_self, get_elem?-set_ne, set, All, ◌⊎◌, length, ltb,
  ◌==◌, Bool-cases, inl, inr,
}
use mathlib.Core.Option.{some-injective}
use coro_iomultiplex.Async.Pool.{
  Pool, bound_to, add_task, runs, run_tasks, clean_tasks, clean_limit,
}
use coro_iomultiplex.Async.Pool.Bound.{IsBound}
use coro_iomultiplex.Async.Pool.Add.{add_task-Added, run_tasks-IsBound}
use coro_iomultiplex.Async.Pool.History.{clean_tasks-few}
use coro_iomultiplex.Async.Pool.Clean.{Cleaned, clean_tasks-Cleaned}

-- The pool, and the task that each thread is resuming.
pub record Crew : Type 0 where
  pub pool : Pool
  pub threads : List (Option ℕ)

abbrev pub IsIdle : Option ℕ → Type 0
IsIdle none = Unit
IsIdle (some t) = ⊥

-- A call of anyone, or a move of a thread; the cleaner owns cleanWorkMutex, which a thread that
-- resumes a task shares.
pub data Step (c : Crew) : Crew → Type 0 where
  adds : (t : ℕ) (p : Pool) → add_task c.pool t ≡ some p → Step c (record c { pool = p })
  resumes :
      (done : ℕ → Bool) (i t : ℕ) (p : Pool)
      → get_elem? c.threads i ≡ some none
      → run_tasks done c.pool i ≡ runs p t true
      → Step c (record { pool = p; threads = set c.threads i (some t) })
  skips :
      (done : ℕ → Bool) (i t : ℕ) (p : Pool)
      → get_elem? c.threads i ≡ some none
      → run_tasks done c.pool i ≡ runs p t false
      → Step c (record c { pool = p })
  returns : (i : ℕ) → Step c (record c { threads = set c.threads i none })
  cleans :
      (done : ℕ → Bool)
      → All IsIdle c.threads
      → Step c (record c { pool = (clean_tasks done c.pool).0 })

pub data Reach (c : Crew) : Crew → Type 0 where
  here : Reach c c
  next : {d e : Crew} → Reach c d → Step d e → Reach c e

-- A task that a thread resumes is bound to the queue of the thread.
pub record IsServed (c : Crew) : Type 0 where
  pub valid : IsBound c.pool
  pub at_home :
      (i t : ℕ) → get_elem? c.threads i ≡ some (some t) → bound_to t c.pool.binding ≡ some i

-- What a thread does after its place was set.
placed :
    (threads : List (Option ℕ)) (i j t : ℕ) (new : Option ℕ)
    → get_elem? (set threads i new) j ≡ some (some t)
    → ((i ≡ j) × (new ≡ some t)) ⊎ (get_elem? threads j ≡ some (some t))
placed [] i j t new h = inr h
placed (x ∷ threads) zero zero t new h = inl (refl, ground arith)
placed (x ∷ threads) zero (suc j) t new h = inr h
placed (x ∷ threads) (suc i) zero t new h = inr h
placed (x ∷ threads) (suc i) (suc j) t new h = elim (placed threads i j t new h) [
  | inl (e, f) ↦ inl (ap suc e, f)
  | inr there ↦ inr there
]

idle-ne_resuming :
    (threads : List (Option ℕ)) (i t : ℕ) → All IsIdle threads → get_elem? threads i ≢ some (some t)
idle-ne_resuming [] i t idle h = absurd (ground arith)
idle-ne_resuming (none ∷ threads) zero t idle h = absurd (ground arith)
idle-ne_resuming (some u ∷ threads) zero t idle h = absurd idle.0
idle-ne_resuming (x ∷ threads) (suc i) t idle h = idle-ne_resuming threads i t idle.1 h

clean_tasks-IsBound : (done : ℕ → Bool) (p : Pool) → IsBound p → IsBound (clean_tasks done p).0
clean_tasks-IsBound done p w = elim (Bool-cases (ltb (length p.binding) clean_limit)) [
  | inl few ↦ subst (λ x. IsBound x.0) (sym (clean_tasks-few done p few)) w
  | inr many ↦
      let c : Cleaned done p (clean_tasks done p).0 (clean_tasks done p).1 =
        clean_tasks-Cleaned done p w many in
      c.valid
]

taken-binding :
    (done : ℕ → Bool) (p p' : Pool) (i t : ℕ) (resumed : Bool)
    → IsBound p
    → run_tasks done p i ≡ runs p' t resumed
    → (bound_to t p.binding ≡ some i) × (p'.binding ≡ p.binding) × IsBound p'
taken-binding done p p' i t resumed w e =
    let (rest, front, eq, r, b, w') = run_tasks-IsBound done p i p' t resumed w e in
    (b, ap (λ q. q.binding) eq, w')

Step-IsServed : {c d : Crew} → Step c d → IsServed c → IsServed d
Step-IsServed {c} (adds t p e) s =
    let (p', e', a) = add_task-Added c.pool t s.valid in
    let same : p' ≡ p = ground arith in
    record {
      valid = subst IsBound same a.valid;
      at_home =
          λ i u h. subst (λ q. bound_to u q.binding ≡ some i) same (a.kept u i (s.at_home i u h));
    }
Step-IsServed {c} (resumes done i t p free e) s =
    let (b, same, w) = taken-binding done c.pool p i t true s.valid e in
    record {
      valid = w;
      at_home = λ j u h. ap (bound_to u) same ∙ elim (placed c.threads i j u (some t) h) [
        | inl (eq, new) ↦ ground (arith, b)
        | inr there ↦ s.at_home j u there
      ];
    }
Step-IsServed {c} (skips done i t p free e) s =
    let (b, same, w) = taken-binding done c.pool p i t false s.valid e in
    record { valid = w; at_home = λ j u h. ap (bound_to u) same ∙ s.at_home j u h }
Step-IsServed {c} (returns i) s = record {
  valid = s.valid;
  at_home = λ j u h. elim (placed c.threads i j u none h) [
    | inl (eq, new) ↦ absurd (ground arith)
    | inr there ↦ s.at_home j u there
  ];
}
Step-IsServed {c} (cleans done idle) s = record {
  valid = clean_tasks-IsBound done c.pool s.valid;
  at_home = λ j u h. absurd (idle-ne_resuming c.threads j u idle h);
}

Reach-IsServed : {c d : Crew} → IsServed c → Reach c d → IsServed d
Reach-IsServed s here = s
Reach-IsServed s (next r step) = Step-IsServed step (Reach-IsServed s r)

-- From a valid pool with idle threads on, whoever adds whatever tasks, as often as they like and also
-- while they run, and whatever the threads and the cleaner do: no two threads resume one task at the
-- same time. A task that adds itself is not resumed elsewhere before it has returned.
pub resumed_once :
    {c d : Crew} (i j t : ℕ)
    → IsBound c.pool
    → All IsIdle c.threads
    → Reach c d
    → get_elem? d.threads i ≡ some (some t)
    → get_elem? d.threads j ≡ some (some t)
    → i ≡ j
resumed_once {c} {d} i j t w idle r at_i at_j =
    let started : IsServed c = record {
      valid = w;
      at_home = λ k u h. absurd (idle-ne_resuming c.threads k u idle h);
    } in
    let s : IsServed d = Reach-IsServed started r in
    cc (some-injective i j (sym (s.at_home i t at_i) ∙ s.at_home j t at_j))
