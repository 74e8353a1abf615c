-- ===== src/Async/Pool/Turns.antt =====
-- Tasks that give their turn away by `co_await pool.scheduler`, as those of demo/threadpooltest.cpp
-- and the loops of the servers do, on the pool of include/async/Loop.hpp.
use coro_iomultiplex.Prelude.{
  ℕ, zero, suc, ◌≡◌, ◌≢◌, refl, sym, ap, ◌∙◌, Bool, true, false, List, [], ◌∷◌, ◌++◌, Option, none,
  some, arith, get_elem?, get_elem?-set_self, get_elem?-set_ne, set, length, ◌+◌, ◌*◌,
}
use mathlib.Core.Option.{some-injective}
use mathlib.Core.List.{append_assoc, append-nil}
use coro_iomultiplex.Async.Pool.{Pool, add_task, waits, runs, run_tasks}
use coro_iomultiplex.Async.Pool.Bound.{IsBound}
use coro_iomultiplex.Async.Pool.Add.{add_task-Added, run_tasks-front, run_tasks-IsBound}
use coro_iomultiplex.Async.Pool.Fifo.{get_elem?-in}

-- scheduleAwaiter::await_suspend.
unfoldable pub await_schedule : Pool → ℕ → Option Pool
await_schedule p t = add_task p t

-- A turn of a thread: the front task is resumed and gives its turn away. `none` is an empty queue or
-- a use of end().
unfoldable pub turn : Pool → ℕ → Option (ℕ × Pool)
unfolding await_schedule run_tasks
turn p i = elim (run_tasks (λ t. false) p i) [
  | waits ↦ none
  | runs p' t resumed ↦ elim (await_schedule p' t) [ none ↦ none | some p'' ↦ some (t, p'') ]
]

-- Turns of one thread, and which tasks were resumed; between two of them the pool may change.
unfoldable pub turns : (Pool → Pool) → ℕ → Pool → ℕ → Option (List ℕ × Pool)
unfolding turn
turns between zero p i = some ([], p)
turns between (suc n) p i = elim (turn p i) [
  | none ↦ none
  | some (t, p') ↦ elim (turns between n (between p') i) [
    | none ↦ none
    | some (ts, p'') ↦ some (t ∷ ts, p'')
  ]
]

-- A turn moves the front task to the end of its queue.
turn-rotates :
    (p : Pool) (i t : ℕ) (rest : List ℕ)
    → IsBound p
    → get_elem? p.queues i ≡ some (t ∷ rest)
    → (p' : Pool) × (turn p i ≡ some (t, p'))
      × (get_elem? p'.queues i ≡ some (rest ++ (t ∷ [])))
      × ((j : ℕ) → i ≢ j → get_elem? p'.queues j ≡ get_elem? p.queues j)
      × IsBound p'
turn-rotates p i t rest w at =
    let never : ℕ → Bool = λ u. false in
    let ran = run_tasks-front never p i t rest at in
    let p1 : Pool = record p { queues = set p.queues i rest } in
    let (rest', front, eq, r, b, w1) = run_tasks-IsBound never p i p1 t true w ran in
    let (p', e, a) = add_task-Added p1 t w1 in
    let home : a.queue ≡ i = some-injective a.queue i (sym a.is_bound ∙ a.kept t i b) in
    let here : get_elem? p1.queues i ≡ some rest =
      get_elem?-set_self p.queues i rest (get_elem?-in p.queues i (t ∷ rest) at) in
    let before : a.before ≡ rest =
      some-injective a.before rest (sym a.was ∙ ap (get_elem? p1.queues) home ∙ here) in
    (
      p',
      unfold turn await_schedule in rw (ran, turn) (rw (e, turn) refl),
      sym (ap (get_elem? p'.queues) home) ∙ a.now ∙ ap (λ l. some (l ++ (t ∷ []))) before,
      (λ j ne. a.others j (λ k. ne (sym home ∙ k)) ∙ get_elem?-set_ne p.queues i j rest ne),
      a.valid,
    )

-- Turns that come after others.
after_turns : List ℕ → Option (List ℕ × Pool) → Option (List ℕ × Pool)
after_turns ts none = none
after_turns ts (some (us, p)) = some (ts ++ us, p)

-- The tasks of `k` rounds.
abbrev pub rounds : ℕ → List ℕ → List ℕ
rounds zero ts = []
rounds (suc k) ts = ts ++ rounds k ts

-- What happens between two turns keeps the pool valid and the queue as it is.
abbrev pub LeavesQueue : ℕ → (Pool → Pool) → Type 0
LeavesQueue i between =
    (q : Pool)
    → IsBound q
    → IsBound (between q) × (get_elem? (between q).queues i ≡ get_elem? q.queues i)

turns-suc :
    (between : Pool → Pool) (n : ℕ) (p p' : Pool) (i t : ℕ)
    → turn p i ≡ some (t, p')
    → turns between (suc n) p i ≡ after_turns (t ∷ []) (turns between n (between p') i)
unfolding turns after_turns
turns-suc between n p p' i t e = ground (arith, e)

after_turns-cons :
    (t : ℕ) (ts : List ℕ) (o : Option (List ℕ × Pool))
    → after_turns (t ∷ []) (after_turns ts o) ≡ after_turns (t ∷ ts) o
unfolding after_turns
after_turns-cons t ts none = refl
after_turns-cons t ts (some (us, p)) = refl

after_turns-none : (o : Option (List ℕ × Pool)) → o ≡ after_turns [] o
unfolding after_turns
after_turns-none none = refl
after_turns-none (some (us, p)) = refl

after_turns-some : (ts us : List ℕ) (p : Pool) → after_turns ts (some (us, p)) ≡ some (ts ++ us, p)
unfolding after_turns
after_turns-some ts us p = refl

-- As many turns as tasks: each has had one, in order, and they stand behind the others.
turns-served :
    (between : Pool → Pool) (p : Pool) (i : ℕ) (ts us : List ℕ)
    → LeavesQueue i between
    → IsBound p
    → get_elem? p.queues i ≡ some (ts ++ us)
    → (p' : Pool) × (get_elem? p'.queues i ≡ some (us ++ ts))
      × IsBound p'
      × ((n : ℕ) → turns between (length ts + n) p i ≡ after_turns ts (turns between n p' i))
turns-served between p i [] us keeps w at = (
  p,
  at ∙ ap some (sym (append-nil us)),
  w,
  (λ n.
      ap (λ k. turns between k p i) {y = n} (omega arith) ∙ after_turns-none (turns between n p i)),
)
turns-served between p i (t ∷ ts) us keeps w at =
    let (p1, e, at1, others, w1) = turn-rotates p i t (ts ++ us) w at in
    let (wb, same) = keeps p1 w1 in
    let (p', at', w', rest) =
      turns-served between (between p1) i ts (us ++ (t ∷ [])) keeps wb
        (same ∙ at1 ∙ ap some (append_assoc ts us (t ∷ []))) in
    (
      p',
      at' ∙ ap some (append_assoc us (t ∷ []) ts),
      w',
      (λ n.
          ap (λ k. turns between k p i) {y = suc (length ts + n)} (omega arith)
          ∙ turns-suc between (length ts + n) p p1 i t e
          ∙ ap (after_turns (t ∷ [])) (rest n)
          ∙ after_turns-cons t ts (turns between n p' i)),
    )

-- Round robin: a thread of a valid pool whose tasks all give their turn away resumes them in the order
-- of its queue, one turn each in every round, for as many rounds as one likes, whatever the other
-- threads do in between that leaves the pool valid and this queue as it is; addTask of the scheduler
-- finds the queue again each time, and at the end of the rounds the queue is as it was.
pub turns-rounds :
    (between : Pool → Pool) (k : ℕ) (p : Pool) (i : ℕ) (ts : List ℕ)
    → LeavesQueue i between
    → IsBound p
    → get_elem? p.queues i ≡ some ts
    → (p' : Pool) × (turns between (k * length ts) p i ≡ some (rounds k ts, p'))
      × (get_elem? p'.queues i ≡ some ts)
      × IsBound p'
unfolding turns
turns-rounds between zero p i ts keeps w at =
    (p, ap (λ n. turns between n p i) {y = 0} (omega arith), at, w)
turns-rounds between (suc k) p i ts keeps w at =
    let (p1, at1, w1, first) =
      turns-served between p i ts [] keeps w (at ∙ ap some (sym (append-nil ts))) in
    let (p', e, at', w') = turns-rounds between k p1 i ts keeps w1 at1 in
    (
      p',
      ap (λ n. turns between n p i) {y = length ts + k * length ts} (grind arith)
          ∙ first (k * length ts)
          ∙ ap (after_turns ts) e
          ∙ after_turns-some ts (rounds k ts) p',
      at',
      w',
    )
