-- ===== src/Async/Pool/Waiting.antt =====
-- How long a task of include/async/Loop.hpp waits for its turn.
use coro_iomultiplex.Prelude.{
  ltb, ℕ, zero, suc, ◌≤◌, ◌<◌, length, ◌≡◌, refl, sym, ap, ◌∙◌, subst, ◌==◌, List, [], ◌∷◌, ◌++◌,
  some, Bool, true, false, if◌then◌else◌, get_elem?, take, Bool-cases, inl, inr, arith,
}
use mathlib.Core.List.{append_assoc}
use coro_iomultiplex.Async.Pool.{Pool, erase_if, clean_tasks, clean_limit, contains}
use coro_iomultiplex.Async.Pool.Clean.{Cleaned, clean_tasks-Cleaned}
use coro_iomultiplex.Async.Pool.History.{clean_tasks-few}
use coro_iomultiplex.Async.Pool.Bound.{IsBound}
use coro_iomultiplex.Async.Pool.Fifo.{
  Event, Run, ends, adds, takes, cleans, taken_from, add_task-queue, run_tasks-queue, get_elem?-map,
}

-- A task that is not done stays behind no more tasks than before.
erase_if-front :
    (done : ℕ → Bool) (front : List ℕ) (t : ℕ) (back : List ℕ)
    → done t ≡ false
    → (front' : List ℕ) × (back' : List ℕ) × (erase_if done (front ++ (t ∷ back))
        ≡ front' ++ (t ∷ back'))
      × (length front' ≤ length front)
unfolding erase_if
erase_if-front done [] t back h = ([], erase_if done back, rw h refl, omega arith)
erase_if-front done (x ∷ front) t back h =
    let (front', back', eq, le) = erase_if-front done front t back h in
    elim (Bool-cases (done x)) [
      | inl d ↦ (front', back', rw d eq, omega arith)
      | inr n ↦ (x ∷ front', back', rw n (ap (λ l. x ∷ l) eq), omega arith)
    ]

-- After a round of cleanTasks.
cleaned-front :
    (done : ℕ → Bool) (p : Pool) (i t : ℕ) (front back : List ℕ)
    → done t ≡ false
    → IsBound p
    → get_elem? p.queues i ≡ some (front ++ (t ∷ back))
    → (front' : List ℕ) × (back' : List ℕ) × (get_elem? (clean_tasks done p).0.queues i
        ≡ some (front' ++ (t ∷ back')))
      × (length front' ≤ length front)
      × IsBound (clean_tasks done p).0
cleaned-front done p i t front back h w at =
    elim (Bool-cases (ltb (length p.binding) clean_limit)) [
      | inl few ↦
          let same = sym (ap (λ x. x.0) (clean_tasks-few done p few)) in
          (
            front,
            back,
            subst (λ q. get_elem? q.queues i ≡ some (front ++ (t ∷ back))) same at,
            omega arith,
            subst IsBound same w,
          )
      | inr many ↦
          let c : Cleaned done p (clean_tasks done p).0 (clean_tasks done p).1 =
            clean_tasks-Cleaned done p w many in
          let (front', back', eq, le) = erase_if-front done front t back h in
          (
            front',
            back',
            ap (λ qs. get_elem? qs i) c.queues
                ∙ get_elem?-map (erase_if done) p.queues i (front ++ (t ∷ back)) at
                ∙ ap some eq,
            le,
            c.valid,
          )
    ]

-- The task at the front was taken, and is `t`, or the task behind it moves up.
taken_served :
    (t x n : ℕ) (front back l1 rest : List ℕ)
    → front ++ (t ∷ back) ≡ x ∷ l1
    → length front ≤ n
    → ((m : ℕ) (front' : List ℕ)
        → suc m ≡ n
        → l1 ≡ front' ++ (t ∷ back)
        → length front' ≤ m
        → contains t (take (suc m) rest) ≡ true)
    → contains t (take (suc n) (x ∷ rest)) ≡ true
unfolding contains
taken_served t x n [] back l1 rest eq le next = ground arith
taken_served t x zero (y ∷ front) back l1 rest eq le next = absurd (omega (arith, le))
taken_served t x (suc m) (y ∷ front) back l1 rest eq le next =
    let moved : l1 ≡ front ++ (t ∷ back) = ground arith in
    ground (arith, next m front refl moved (omega (arith, le)))

-- Nobody starves: over any calls of addTask, runTasks and cleanTasks by any threads, on a valid pool, a
-- task that is not finished and stands behind `n` others, or fewer, is among the next `n` + 1 that are
-- taken from its queue, as soon as so many are; whatever else is added, to whichever queue, and
-- whatever the cleaner takes out.
pub Run-served :
    (finished : ℕ → Bool) (t i : ℕ) (p' p : Pool) (n : ℕ) (log : List Event) (front back : List ℕ)
    → finished t ≡ false
    → IsBound p
    → Run finished p' p log
    → get_elem? p.queues i ≡ some (front ++ (t ∷ back))
    → length front ≤ n
    → n < length (taken_from i log)
    → contains t (take (suc n) (taken_from i log)) ≡ true
unfolding taken_from
Run-served finished t i p' p n log front back f w ends at le lt = absurd (omega arith)
Run-served finished t i p' p n log front back f w (adds u q p1 rest e b run) at le lt =
    let (at1, w1) = add_task-queue p p1 u q i (front ++ (t ∷ back)) w e b at in
    elim (Bool-cases (q == i)) [
      | inl same ↦
          let longer : get_elem? p1.queues i ≡ some (front ++ (t ∷ (back ++ (u ∷ [])))) =
            at1
            ∙ ap (λ c. some (if c then (front ++ (t ∷ back)) ++ (u ∷ []) else front ++ (t ∷ back)))
                same
            ∙ ap some (append_assoc front (t ∷ back) (u ∷ [])) in
          Run-served finished t i p' p1 n rest front (back ++ (u ∷ [])) f w1 run longer le lt
      | inr other ↦
          let kept : get_elem? p1.queues i ≡ some (front ++ (t ∷ back)) =
            at1
            ∙ ap (λ c. some (if c then (front ++ (t ∷ back)) ++ (u ∷ []) else front ++ (t ∷ back)))
                other in
          Run-served finished t i p' p1 n rest front back f w1 run kept le lt
    ]
Run-served finished t i p' p n log front back f w (takes done u q p1 rest resumed e run) at le lt =
    let (l1, at1, eq, w1) = run_tasks-queue done p p1 u q i resumed (front ++ (t ∷ back)) w e at in
    elim (Bool-cases (q == i)) [
      | inl same ↦
          let first : front ++ (t ∷ back) ≡ u ∷ l1 = eq ∙ ap (λ c. if c then u ∷ l1 else l1) same in
          let all = ap (λ c. if c then u ∷ taken_from i rest else taken_from i rest) same in
          let more : n < suc (length (taken_from i rest)) = subst (λ l. n < length l) all lt in
          subst (λ l. contains t (take (suc n) l) ≡ true) (sym all)
            (taken_served t u n front back l1 (taken_from i rest) first le (λ m front' k moved le'.
              Run-served finished t i p' p1 m rest front' back f w1 run (at1 ∙ ap some moved) le'
                (omega (arith, more, k))))
      | inr other ↦
          let all = ap (λ c. if c then u ∷ taken_from i rest else taken_from i rest) other in
          let kept : front ++ (t ∷ back) ≡ l1 = eq ∙ ap (λ c. if c then u ∷ l1 else l1) other in
          subst (λ l. contains t (take (suc n) l) ≡ true) (sym all)
            (Run-served finished t i p' p1 n rest front back f w1 run (at1 ∙ ap some (sym kept)) le
              (subst (λ l. n < length l) all lt))
    ]
Run-served finished t i p' p n log front back f w (cleans done rest h run) at le lt =
    let (front', back', at1, le1, w1) = cleaned-front done p i t front back (h t f) w at in
    Run-served finished t i p' (clean_tasks done p).0 n rest front' back' f w1 run at1
      (omega (arith, le, le1)) lt
