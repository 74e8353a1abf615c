-- ===== src/Async/Pool/Fifo.antt =====
-- The queues of include/async/Loop.hpp over the calls of addTask, runTasks and cleanTasks.
use coro_iomultiplex.Prelude.{
  map, ltb, ℕ, zero, suc, ◌<◌, length, ◌≡◌, refl, sym, ap, ◌∙◌, subst, ◌==◌, List, [], ◌∷◌, ◌++◌,
  some, Bool, true, false, if◌then◌else◌, get_elem?, get_elem?-set_self, get_elem?-set_ne,
  Bool-cases, inl, inr, arith,
}
use mathlib.Core.List.{append_assoc, append-nil}
use coro_iomultiplex.Async.Pool.{
  Pool, bound_to, add_task, runs, run_tasks, erase_if, clean_tasks, clean_limit,
}
use coro_iomultiplex.Async.Pool.Clean.{Cleaned, clean_tasks-Cleaned}
use coro_iomultiplex.Async.Pool.History.{clean_tasks-few}
use coro_iomultiplex.Async.Pool.Bound.{IsBound}
use coro_iomultiplex.Async.Pool.Add.{Added, add_task-Added, run_tasks-IsBound}

-- What a call did: a task went to a queue, or was taken from one.
pub data Event : Type 0 where
  added taken : ℕ → ℕ → Event

-- Calls of any threads, one after the other; `finished` holds of every task that a round of the
-- cleaner finds done.
pub data Run (finished : ℕ → Bool) (p' : Pool) : Pool → List Event → Type 0 where
  ends : Run finished p' p' []
  adds :
      (t q : ℕ) {p : Pool} (p1 : Pool) (log : List Event)
      → add_task p t ≡ some p1
      → bound_to t p1.binding ≡ some q
      → Run finished p' p1 log
      → Run finished p' p (added q t ∷ log)
  takes :
      (done : ℕ → Bool) (t q : ℕ) {p : Pool} (p1 : Pool) (log : List Event) (resumed : Bool)
      → run_tasks done p q ≡ runs p1 t resumed
      → Run finished p' p1 log
      → Run finished p' p (taken q t ∷ log)
  cleans :
      (done : ℕ → Bool) {p : Pool} (log : List Event)
      → ((t : ℕ) → finished t ≡ false → done t ≡ false)
      → Run finished p' (clean_tasks done p).0 log
      → Run finished p' p log

-- The tasks that went to a queue, in order.
unfoldable pub added_to : ℕ → List Event → List ℕ
added_to q [] = []
added_to q (added r t ∷ log) = let rest = added_to q log in if r == q then t ∷ rest else rest
added_to q (taken r t ∷ log) = added_to q log

-- The tasks that were taken from a queue, in order.
unfoldable pub taken_from : ℕ → List Event → List ℕ
taken_from q [] = []
taken_from q (added r t ∷ log) = taken_from q log
taken_from q (taken r t ∷ log) = let rest = taken_from q log in if r == q then t ∷ rest else rest

-- A queue after addTask.
pub add_task-queue :
    (p p1 : Pool) (t q i : ℕ) (l : List ℕ)
    → IsBound p
    → add_task p t ≡ some p1
    → bound_to t p1.binding ≡ some q
    → get_elem? p.queues i ≡ some l
    → (get_elem? p1.queues i ≡ some (if q == i then l ++ (t ∷ []) else l)) × IsBound p1
add_task-queue p p1 t q i l w e b at =
    let (p', e', a) = add_task-Added p t w in
    let same : p' ≡ p1 = ground arith in
    let a1 = subst (Added p t) same a in
    let here : a1.queue ≡ q = ground (arith, a1.is_bound) in
    (
      elim (Bool-cases (q == i)) [
        | inl eq ↦ rw eq (ground (arith, a1.now, a1.was, here))
        | inr ne ↦ rw ne (a1.others i (λ k. absurd (ground arith)) ∙ at)
      ],
      a1.valid,
    )

pub get_elem?-in :
    (qs : List (List ℕ)) (i : ℕ) (l : List ℕ) → get_elem? qs i ≡ some l → i < length qs
get_elem?-in [] i l h = absurd (ground arith)
get_elem?-in (q ∷ qs) zero l h = omega arith
get_elem?-in (q ∷ qs) (suc i) l h = omega (arith, get_elem?-in qs i l h)

-- A queue after runTasks.
pub run_tasks-queue :
    (done : ℕ → Bool) (p p1 : Pool) (t q i : ℕ) (resumed : Bool) (l : List ℕ)
    → IsBound p
    → run_tasks done p q ≡ runs p1 t resumed
    → get_elem? p.queues i ≡ some l
    → (l1 : List ℕ) × (get_elem? p1.queues i ≡ some l1)
      × (l ≡ (if q == i then t ∷ l1 else l1))
      × IsBound p1
run_tasks-queue done p p1 t q i resumed l w e at =
    let (rest, front, eq, r, b, w1) = run_tasks-IsBound done p q p1 t resumed w e in
    elim (Bool-cases (q == i)) [
      | inl same ↦
          let here : q ≡ i = ground arith in
          let set_here : get_elem? p1.queues q ≡ some rest =
            ap (λ r. get_elem? r.queues q) eq
            ∙ get_elem?-set_self p.queues q rest (get_elem?-in p.queues q (t ∷ rest) front) in
          let all : l ≡ t ∷ rest = ground (arith, front, at, here) in
          (rest, subst (λ j. get_elem? p1.queues j ≡ some rest) here set_here, rw same all, w1)
      | inr ne ↦ (
        l,
        ap (λ r. get_elem? r.queues i) eq
            ∙ get_elem?-set_ne p.queues q i rest (λ k. absurd (ground arith))
            ∙ at,
        rw ne refl,
        w1,
      )
    ]

pub get_elem?-map :
    (f : List ℕ → List ℕ) (qs : List (List ℕ)) (i : ℕ) (l : List ℕ)
    → get_elem? qs i ≡ some l
    → get_elem? (map f qs) i ≡ some (f l)
get_elem?-map f [] i l h = absurd (ground arith)
get_elem?-map f (q ∷ qs) zero l h = ground (arith, h)
get_elem?-map f (q ∷ qs) (suc i) l h = get_elem?-map f qs i l h

-- Whatever is done is finished, so what is not finished is the same without the done tasks.
erase_if-done_first :
    (finished done : ℕ → Bool) (l m : List ℕ)
    → ((t : ℕ) → finished t ≡ false → done t ≡ false)
    → erase_if finished (erase_if done l ++ m) ≡ erase_if finished (l ++ m)
unfolding erase_if
erase_if-done_first finished done [] m h = refl
erase_if-done_first finished done (t ∷ l) m h =
    ground (arith, h t, erase_if-done_first finished done l m h)

-- A queue after a round of cleanTasks.
clean_tasks-queue :
    (finished done : ℕ → Bool) (p : Pool) (i : ℕ) (l : List ℕ)
    → ((t : ℕ) → finished t ≡ false → done t ≡ false)
    → IsBound p
    → get_elem? p.queues i ≡ some l
    → (l1 : List ℕ) × (get_elem? (clean_tasks done p).0.queues i ≡ some l1)
      × ((m : List ℕ) → erase_if finished (l1 ++ m) ≡ erase_if finished (l ++ m))
      × IsBound (clean_tasks done p).0
clean_tasks-queue finished done p i l h w at =
    elim (Bool-cases (ltb (length p.binding) clean_limit)) [
      | inl few ↦
          let same = sym (ap (λ x. x.0) (clean_tasks-few done p few)) in
          (l, subst (λ q. get_elem? q.queues i ≡ some l) same at, (λ m. refl), subst IsBound same w)
      | inr many ↦
          let c : Cleaned done p (clean_tasks done p).0 (clean_tasks done p).1 =
            clean_tasks-Cleaned done p w many in
          (
            erase_if done l,
            ap (λ qs. get_elem? qs i) c.queues ∙ get_elem?-map (erase_if done) p.queues i l at,
            (λ m. erase_if-done_first finished done l m h),
            c.valid,
          )
    ]

added_front :
    (b : Bool) (l : List ℕ) (t : ℕ) (rest : List ℕ)
    → (if b then l ++ (t ∷ []) else l) ++ rest ≡ l ++ (if b then t ∷ rest else rest)
added_front true l t rest = append_assoc l (t ∷ []) rest
added_front false l t rest = refl

taken_front :
    (finished : ℕ → Bool) (b : Bool) (t : ℕ) (rest l l1 l' m : List ℕ)
    → l ≡ (if b then t ∷ l1 else l1)
    → erase_if finished (rest ++ l') ≡ erase_if finished (l1 ++ m)
    → erase_if finished ((if b then t ∷ rest else rest) ++ l') ≡ erase_if finished (l ++ m)
unfolding erase_if
taken_front finished true t rest l l1 l' m front eq =
    ap (λ k. if finished t then k else t ∷ k) eq ∙ ap (λ k. erase_if finished (k ++ m)) (sym front)
taken_front finished false t rest l l1 l' m front eq =
    eq ∙ ap (λ k. erase_if finished (k ++ m)) (sym front)

-- Each queue is first in, first out: over any calls of addTask, runTasks and cleanTasks by any
-- threads, on a valid pool, what was taken from a queue and what it holds are, in order, what it held
-- and what was added to it, but for tasks that are finished, among them all that the cleaner finds
-- done. So no task that is not finished is lost, doubled or overtaken.
pub Run-fifo :
    (finished : ℕ → Bool) (p' p : Pool) (log : List Event) (i : ℕ) (l : List ℕ)
    → IsBound p
    → Run finished p' p log
    → get_elem? p.queues i ≡ some l
    → (l' : List ℕ) × (get_elem? p'.queues i ≡ some l')
      × (erase_if finished (taken_from i log ++ l') ≡ erase_if finished (l ++ added_to i log))
unfolding added_to taken_from
Run-fifo finished p' p log i l w ends at = (l, at, ap (erase_if finished) (sym (append-nil l)))
Run-fifo finished p' p log i l w (adds t q p1 rest e b run) at =
    let (at1, w1) = add_task-queue p p1 t q i l w e b at in
    let (l', at', eq) =
      Run-fifo finished p' p1 rest i (if q == i then l ++ (t ∷ []) else l) w1 run at1 in
    (l', at', eq ∙ ap (erase_if finished) (added_front (q == i) l t (added_to i rest)))
Run-fifo finished p' p log i l w (takes done t q p1 rest resumed e run) at =
    let (l1, at1, front, w1) = run_tasks-queue done p p1 t q i resumed l w e at in
    let (l', at', eq) = Run-fifo finished p' p1 rest i l1 w1 run at1 in
    (
      l',
      at',
      taken_front finished (q == i) t (taken_from i rest) l l1 l' (added_to i rest) front eq,
    )
Run-fifo finished p' p log i l w (cleans done rest h run) at =
    let (l1, at1, same, w1) = clean_tasks-queue finished done p i l h w at in
    let (l', at', eq) = Run-fifo finished p' (clean_tasks done p).0 rest i l1 w1 run at1 in
    (l', at', eq ∙ same (added_to i rest))
