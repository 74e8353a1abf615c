-- ===== src/Async/Pool/Add.antt =====
-- addTask and runTasks of include/async/Loop.hpp.
use coro_iomultiplex.Prelude.{
  ℕ, suc, ◌+◌, ◌<◌, ◌≡◌, ◌≢◌, refl, sym, ap, ◌∙◌, subst, ◌==◌, List, [], ◌∷◌, ◌++◌, none, some,
  arith, length, length-set, get_elem?, get_elem?-set_self, get_elem?-set_ne, set, All, All-append,
  Bool, not, Option-cases, inl, inr, Bool-cases,
}
use coro_iomultiplex.Async.Pool.{
  Pool, Cursor, at_queue, at_end, bound_to, next_queue, push_back, add_task, runs, run_tasks,
}
use coro_iomultiplex.Async.Pool.Bound.{
  InRange, IsQueue, IsBound, bound_to-lt, get_elem?-lt, InPlace-set, InPlace-at, InPlace-bind,
}

-- What one `addTask` does: the task stands at the end of the queue that it is bound to, no other
-- queue changes, and whatever was bound stays so.
pub record Added (p : Pool) (t : ℕ) (p' : Pool) : Type 0 where
  pub queue : ℕ
  pub before : List ℕ
  pub is_bound : bound_to t p'.binding ≡ some queue
  pub was : get_elem? p.queues queue ≡ some before
  pub now : get_elem? p'.queues queue ≡ some (before ++ (t ∷ []))
  pub others : (j : ℕ) → queue ≢ j → get_elem? p'.queues j ≡ get_elem? p.queues j
  pub kept : (u k : ℕ) → bound_to u p.binding ≡ some k → bound_to u p'.binding ≡ some k
  pub only : (u : ℕ) → u ≢ t → bound_to u p'.binding ≡ bound_to u p.binding
  pub valid : IsBound p'

next_queue-IsQueue : (n i : ℕ) → i < n → IsQueue n (next_queue n i)
unfolding next_queue
next_queue-IsQueue n i h = elim (Bool-cases (suc i == n)) [
  | inl e ↦ rw e (omega arith)
  | inr e ↦ rw e (ground arith)
]

pushed : Pool → ℕ → ℕ → List ℕ → Pool
pushed p i t q = record p { queues = set p.queues i (q ++ (t ∷ [])) }

push_back-eq :
    (p : Pool) (i t : ℕ) (q : List ℕ)
    → get_elem? p.queues i ≡ some q
    → push_back p i t ≡ some (pushed p i t q)
unfolding push_back pushed
push_back-eq p i t q e = ground arith

pushed-IsBound :
    (p : Pool) (i t : ℕ) (q : List ℕ)
    → IsBound p
    → bound_to t p.binding ≡ some i
    → get_elem? p.queues i ≡ some q
    → IsBound (pushed p i t q)
unfolding pushed
pushed-IsBound p i t q w b e = record {
  in_place = InPlace-set p.binding 0 i p.queues (q ++ (t ∷ [])) w.in_place (
      All-append (λ u. bound_to u p.binding ≡ some (0 + i)) q (t ∷ [])
        (InPlace-at p.binding 0 i p.queues q w.in_place e)
        (subst (λ n. bound_to t p.binding ≡ some n) {x = i} {y = 0 + i} (omega arith) b, tt));
  in_range =
      subst (λ n. InRange n p.binding) (sym (length-set p.queues i (q ++ (t ∷ [])))) w.in_range;
  ready = subst (λ n. IsQueue n p.current) (sym (length-set p.queues i (q ++ (t ∷ [])))) w.ready;
}

pushed-Added :
    (p r : Pool) (i t : ℕ) (q : List ℕ)
    → IsBound r
    → r.queues ≡ p.queues
    → bound_to t r.binding ≡ some i
    → ((u k : ℕ) → bound_to u p.binding ≡ some k → bound_to u r.binding ≡ some k)
    → ((u : ℕ) → u ≢ t → bound_to u r.binding ≡ bound_to u p.binding)
    → i < length p.queues
    → get_elem? p.queues i ≡ some q
    → Added p t (pushed r i t q)
unfolding pushed
pushed-Added p r i t q w same b kept only lt e = record {
  queue = i;
  before = q;
  is_bound = b;
  was = e;
  now =
      get_elem?-set_self r.queues i (q ++ (t ∷ []))
        (subst (λ (l : List (List ℕ)). i < length l) (sym same) lt);
  others = λ j n. get_elem?-set_ne r.queues i j (q ++ (t ∷ [])) n ∙ ap (λ l. get_elem? l j) same;
  kept = kept;
  only = only;
  valid = pushed-IsBound r i t q w b (ap (λ l. get_elem? l i) same ∙ e);
}

bind : Pool → ℕ → ℕ → Pool
bind p t i = record p { current = next_queue (length p.queues) i; binding = (t, i) ∷ p.binding }

bind-IsBound :
    (p : Pool) (t i : ℕ)
    → IsBound p
    → i < length p.queues
    → bound_to t p.binding ≡ none
    → IsBound (bind p t i)
unfolding bind
bind-IsBound p t i w lt e = record {
  in_place = InPlace-bind p.binding t i 0 p.queues e w.in_place;
  in_range = (lt, e, w.in_range);
  ready = next_queue-IsQueue (length p.queues) i lt;
}

bound_to-cons_self : (t i : ℕ) (b : List (ℕ × ℕ)) → bound_to t ((t, i) ∷ b) ≡ some i
unfolding bound_to
bound_to-cons_self t i b = ground arith

bound_to-cons_kept :
    (t i u k : ℕ) (b : List (ℕ × ℕ))
    → bound_to t b ≡ none
    → bound_to u b ≡ some k
    → bound_to u ((t, i) ∷ b) ≡ some k
unfolding bound_to
bound_to-cons_kept t i u k b e h = ground arith

bound_to-cons_ne : (t i u : ℕ) (b : List (ℕ × ℕ)) → u ≢ t → bound_to u ((t, i) ∷ b) ≡ bound_to u b
unfolding bound_to
bound_to-cons_ne t i u b n = ground arith

add_fresh :
    (p : Pool) (t : ℕ) (c : Cursor)
    → IsBound p
    → p.current ≡ c
    → bound_to t p.binding ≡ none
    → (p' : Pool) × (add_task p t ≡ some p') × Added p t p'
add_fresh p t at_end w h e = absurd (subst (IsQueue (length p.queues)) h w.ready)
add_fresh p t (at_queue i) w h e =
    let lt : i < length p.queues = subst (IsQueue (length p.queues)) h w.ready in
    let (q, at) = get_elem?-lt p.queues i lt in
    (
      pushed (bind p t i) i t q,
      unfold add_task bind in
          rw (e, add_task) (rw (h, add_task) (push_back-eq (bind p t i) i t q at)),
      unfold bind in
          pushed-Added p (bind p t i) i t q (bind-IsBound p t i w lt e) refl
            (bound_to-cons_self t i p.binding) (λ u k b. bound_to-cons_kept t i u k p.binding e b)
            (λ u n. bound_to-cons_ne t i u p.binding n) lt at,
    )

-- `addTask` on a valid pool never uses end(). The task goes to the end of one queue, to which it
-- is bound from then on; a task that was bound already goes to the queue that it had.
pub add_task-Added :
    (p : Pool) (t : ℕ) → IsBound p → (p' : Pool) × (add_task p t ≡ some p') × Added p t p'
add_task-Added p t w = elim (Option-cases (bound_to t p.binding)) [
  | inr (i, e) ↦
      let lt : i < length p.queues = bound_to-lt (length p.queues) p.binding t i w.in_range e in
      let (q, at) = get_elem?-lt p.queues i lt in
      (
        pushed p i t q,
        unfold add_task in rw (e, add_task) (push_back-eq p i t q at),
        pushed-Added p p i t q w refl e (λ u k h. h) (λ u n. refl) lt at,
      )
  | inl e ↦ add_fresh p t p.current w refl e
]

-- `runTasks` takes the front task of its queue, and nothing else of the pool changes.
pub run_tasks-front :
    (done : ℕ → Bool) (p : Pool) (i : ℕ) (t : ℕ) (rest : List ℕ)
    → get_elem? p.queues i ≡ some (t ∷ rest)
    → run_tasks done p i ≡ runs (record p { queues = set p.queues i rest }) t (not (done t))
unfolding run_tasks
run_tasks-front done p i t rest e = ground arith

-- Whatever `runTasks` takes stood at the front of the queue and was bound to it, and the pool
-- stays valid.
pub run_tasks-IsBound :
    (done : ℕ → Bool) (p : Pool) (i : ℕ) (p' : Pool) (t : ℕ) (resumed : Bool)
    → IsBound p
    → run_tasks done p i ≡ runs p' t resumed
    → (rest : List ℕ) × (get_elem? p.queues i ≡ some (t ∷ rest))
      × (p' ≡ record p { queues = set p.queues i rest })
      × (resumed ≡ not (done t))
      × (bound_to t p.binding ≡ some i)
      × IsBound p'
unfolding run_tasks
run_tasks-IsBound done p i p' t resumed w h = elim (Option-cases (get_elem? p.queues i)) [
  | inl e ↦ absurd (ground arith)
  | inr ([], e) ↦ absurd (ground arith)
  | inr (u ∷ rest, e) ↦
      let here : u ≡ t = ground arith in
      let p'' : Pool = record p { queues = set p.queues i rest } in
      let eq : p'' ≡ p' = ground arith in
      let placed : All (λ x. bound_to x p.binding ≡ some (0 + i)) (u ∷ rest) =
        InPlace-at p.binding 0 i p.queues (u ∷ rest) w.in_place e in
      (
        rest,
        ground arith,
        sym eq,
        ground arith,
        ground (arith, placed.0),
        subst IsBound eq (record {
          in_place = InPlace-set p.binding 0 i p.queues rest w.in_place placed.1;
          in_range = subst (λ n. InRange n p.binding) (sym (length-set p.queues i rest)) w.in_range;
          ready = subst (λ n. IsQueue n p.current) (sym (length-set p.queues i rest)) w.ready;
        }),
      )
]
