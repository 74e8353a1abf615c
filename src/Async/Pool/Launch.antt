-- ===== src/Async/Pool/Launch.antt =====
-- The constructor of threadPool against its threads. Each thread adds its queue by emplace_back
-- and waits for the others; the constructor, which starts the threads, does not wait for any of
-- them before `currentQueue = queueList.begin()`.
use coro_iomultiplex.Prelude.{
  ℕ, zero, suc, ◌<◌, ◌≤◌, ◌≡◌, refl, sym, subst, List, [], ◌∷◌, ◌++◌, none, some, arith, length,
  length-append, All, All-append, Bool, true, false, ◌⊎◌, inl, inr,
}
use coro_iomultiplex.Async.Pool.{Pool, Cursor, at_queue, at_end, bound_to, add_task}
use coro_iomultiplex.Async.Pool.Bound.{InPlace, IsQueue, IsBound}

-- The pool while it starts; `set_up` says that the constructor has written currentQueue.
pub record Starting : Type 0 where
  pub queue_list : List (List ℕ)
  pub cursor : Cursor
  pub set_up : Bool

-- queueList.begin(), which on an empty list is end().
unfoldable pub begin : List (List ℕ) → Cursor
begin [] = at_end
begin (q ∷ qs) = at_queue 0

abbrev pub fresh : Starting
fresh = record { queue_list = []; cursor = at_end; set_up = false }

-- One of `n` threads adds its queue, or the constructor writes currentQueue, once.
pub data Step (n : ℕ) : Starting → Starting → Type 0 where
  emplace :
      (s : Starting)
      → length s.queue_list < n
      → Step n s (record s { queue_list = s.queue_list ++ ([] ∷ []) })
  take_begin :
      (s : Starting)
      → s.set_up ≡ false
      → Step n s (record s { cursor = begin s.queue_list; set_up = true })

pub data Reach (n : ℕ) (s : Starting) : Starting → Type 0 where
  here : Reach n s s
  next : {t u : Starting} → Reach n s t → Step n t u → Reach n s u

-- The pool once all threads are there.
abbrev pub pool_of : Starting → Pool
pool_of s = record { queues = s.queue_list; current = s.cursor; binding = [] }

-- `m` queues.
abbrev pub empty_queues : ℕ → List (List ℕ)
empty_queues zero = []
empty_queues (suc m) = empty_queues m ++ ([] ∷ [])

abbrev late : ℕ → Starting
late m = record { queue_list = empty_queues m; cursor = at_end; set_up = true }

length-empty_queues : (m : ℕ) → length (empty_queues m) ≡ m
length-empty_queues zero = refl
length-empty_queues (suc m) =
    omega (arith, length-append (empty_queues m) ([] ∷ []), length-empty_queues m)

Reach-late : (n m : ℕ) → m ≤ n → Reach n fresh (late m)
unfolding begin
Reach-late n zero h = next here (take_begin fresh refl)
Reach-late n (suc m) h =
    next (Reach-late n m (omega arith)) (emplace (late m) (omega (arith, length-empty_queues m)))

-- With any number of threads the pool can start with currentQueue at end(): the constructor reads
-- begin() before the first thread has added its queue. Then the first addTask of any task uses
-- end(), though all queues are there by then.
pub start_may_fail :
    (n : ℕ) (t : ℕ)
    → (s : Starting) × Reach n fresh s
      × (length s.queue_list ≡ n)
      × (s.set_up ≡ true)
      × (add_task (pool_of s) t ≡ none)
unfolding add_task bound_to
start_may_fail n t = (late n, Reach-late n n (omega arith), length-empty_queues n, refl, refl)

-- What holds of a start in which some queue is there before begin() is read.
pub record InTime (s : Starting) : Type 0 where
  pub some_queue : 0 < length s.queue_list
  pub at_first : (s.set_up ≡ true) → s.cursor ≡ at_queue 0
  pub all_empty : All (λ (q : List ℕ). q ≡ []) s.queue_list

begin-first : (qs : List (List ℕ)) → 0 < length qs → begin qs ≡ at_queue 0
unfolding begin
begin-first [] h = elim h [ ]
begin-first (q ∷ qs) h = refl

Step-InTime : (n : ℕ) {s t : Starting} → Step n s t → InTime s → InTime t
Step-InTime n (emplace s h) w = record {
  some_queue = omega (arith, length-append s.queue_list ([] ∷ []), w.some_queue);
  at_first = w.at_first;
  all_empty = All-append (λ q. q ≡ []) s.queue_list ([] ∷ []) w.all_empty (refl, tt);
}
Step-InTime n (take_begin s h) w = record {
  some_queue = w.some_queue;
  at_first = λ e. begin-first s.queue_list w.some_queue;
  all_empty = w.all_empty;
}

Reach-InTime : (n : ℕ) {s t : Starting} → InTime s → Reach n s t → InTime t
Reach-InTime n w here = w
Reach-InTime n w (next r st) = Step-InTime n st (Reach-InTime n w r)

InPlace-empty : (i : ℕ) (qs : List (List ℕ)) → All (λ (q : List ℕ). q ≡ []) qs → InPlace [] i qs
InPlace-empty i [] h = tt
InPlace-empty i (q ∷ qs) h =
    (subst (All (λ t. bound_to t [] ≡ some i)) (sym h.0) tt, InPlace-empty (suc i) qs h.1)

-- Once a queue is there before begin() is read, and all queues are empty, every start ends in a
-- valid pool.
pub start-InTime :
    (n : ℕ) {s t : Starting} → InTime s → Reach n s t → t.set_up ≡ true → IsBound (pool_of t)
start-InTime n {t = t} w r e =
    let v : InTime t = Reach-InTime n w r in
    record {
      in_place = InPlace-empty 0 t.queue_list v.all_empty;
      in_range = tt;
      ready = subst (IsQueue (length t.queue_list)) (sym (v.at_first e)) v.some_queue;
    }

-- A start: its queues are empty, and currentQueue is the first of them or end().
pub record IsStarting (s : Starting) : Type 0 where
  pub all_empty : All (λ (q : List ℕ). q ≡ []) s.queue_list
  pub at_cursor : (s.cursor ≡ at_queue 0) ⊎ (s.cursor ≡ at_end)

begin-cases : (qs : List (List ℕ)) → (begin qs ≡ at_queue 0) ⊎ (begin qs ≡ at_end)
unfolding begin
begin-cases [] = inr refl
begin-cases (q ∷ qs) = inl refl

Step-IsStarting : (n : ℕ) {s t : Starting} → Step n s t → IsStarting s → IsStarting t
Step-IsStarting n (emplace s h) w = record {
  all_empty = All-append (λ q. q ≡ []) s.queue_list ([] ∷ []) w.all_empty (refl, tt);
  at_cursor = w.at_cursor;
}
Step-IsStarting n (take_begin s h) w = record {
  all_empty = w.all_empty;
  at_cursor = begin-cases s.queue_list;
}

pub Reach-IsStarting : (n : ℕ) {t : Starting} → Reach n fresh t → IsStarting t
Reach-IsStarting n here = record { all_empty = tt; at_cursor = inr refl }
Reach-IsStarting n (next r st) = Step-IsStarting n st (Reach-IsStarting n r)
