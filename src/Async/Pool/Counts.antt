-- ===== src/Async/Pool/Counts.antt =====
-- How often a task stands in the queues of the pool of include/async/Loop.hpp, after each call.
use coro_iomultiplex.Prelude.{
  ℕ, ◌+◌, ◌≡◌, refl, sym, ap, ◌∙◌, List, [], ◌∷◌, ◌++◌, none, some, Bool, arith, get_elem?, set,
  length, sum_of, sum_of-append, sum_of-set, count, same_number, Option-cases, inl, inr,
}
use coro_iomultiplex.Async.Pool.{
  Pool, Cursor, at_queue, at_end, bound_to, next_queue, push_back, add_task, add_tasks, runs,
  run_tasks,
}

-- In all queues together.
abbrev pub queued : ℕ → Pool → ℕ
queued t p = sum_of (count t) p.queues

push_back-queued :
    (p p' : Pool) (i t u : ℕ)
    → push_back p i t ≡ some p'
    → queued u p' ≡ queued u p + same_number u t
unfolding push_back
push_back-queued p p' i t u h = elim (Option-cases (get_elem? p.queues i)) [
  | inl e ↦ absurd (ground arith)
  | inr (q, e) ↦
      let eq : record p { queues = set p.queues i (q ++ (t ∷ [])) } ≡ p' = ground arith in
      let one : count u (t ∷ []) ≡ same_number u t = unfold sum_of in omega arith in
      sym (ap (queued u) eq)
      ∙ omega (
        arith,
        one,
        sum_of-set (count u) p.queues i q (q ++ (t ∷ [])) e,
        sum_of-append (same_number u) q (t ∷ []),
      )
]

add_unbound-queued :
    (p p' : Pool) (t u : ℕ) (c : Cursor)
    → p.current ≡ c
    → bound_to t p.binding ≡ none
    → add_task p t ≡ some p'
    → queued u p' ≡ queued u p + same_number u t
add_unbound-queued p p' t u at_end k e h = absurd (unfold add_task in ground arith)
add_unbound-queued p p' t u (at_queue i) k e h =
    let p1 : Pool = record p {
      current = next_queue (length p.queues) i;
      binding = (t, i) ∷ p.binding;
    } in
    let same : add_task p t ≡ push_back p1 i t =
      unfold add_task in rw (e, add_task) (rw (k, add_task) refl) in
    push_back-queued p1 p' i t u (sym same ∙ h)

-- addTask puts the task into the queues once more, and no other.
pub add_task-queued :
    (p p' : Pool) (t u : ℕ) → add_task p t ≡ some p' → queued u p' ≡ queued u p + same_number u t
add_task-queued p p' t u h = elim (Option-cases (bound_to t p.binding)) [
  | inr (i, e) ↦
      let same : add_task p t ≡ push_back p i t = unfold add_task in rw (e, add_task) refl in
      push_back-queued p p' i t u (sym same ∙ h)
  | inl e ↦ add_unbound-queued p p' t u p.current refl e h
]

pub add_tasks-queued :
    (ts : List ℕ) (p p' : Pool) (u : ℕ)
    → add_tasks p ts ≡ some p'
    → queued u p' ≡ queued u p + count u ts
unfolding add_tasks sum_of
add_tasks-queued [] p p' u h = ground arith
add_tasks-queued (t ∷ ts) p p' u h = elim (Option-cases (add_task p t)) [
  | inl e ↦ absurd (ground arith)
  | inr (q, e) ↦
      let rest : add_tasks q ts ≡ some p' = ground arith in
      omega (arith, add_task-queued p q t u e, add_tasks-queued ts q p' u rest)
]

-- runTasks takes its task out once, and no other.
pub run_tasks-queued :
    (done : ℕ → Bool) (p p' : Pool) (i t u : ℕ) (resumed : Bool)
    → run_tasks done p i ≡ runs p' t resumed
    → queued u p' + same_number u t ≡ queued u p
unfolding run_tasks
run_tasks-queued done p p' i t u resumed h = elim (Option-cases (get_elem? p.queues i)) [
  | inl e ↦ absurd (ground arith)
  | inr ([], e) ↦ absurd (ground arith)
  | inr (v ∷ rest, e) ↦
      let here : v ≡ t = ground arith in
      let eq : record p { queues = set p.queues i rest } ≡ p' = ground arith in
      let front : count u (v ∷ rest) ≡ same_number u v + count u rest = unfold sum_of in refl in
      let same : same_number u v ≡ same_number u t = ap (same_number u) here in
      ap (λ q. queued u q + same_number u t) (sym eq)
      ∙ omega (arith, front, same, sum_of-set (count u) p.queues i (v ∷ rest) rest e)
]
