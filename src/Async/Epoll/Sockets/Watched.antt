-- ===== src/Async/Epoll/Sockets/Watched.antt =====
-- What accepts, additions and takes keep of the watched sockets: no open socket has a handler that is
-- destroyed.
use coro_iomultiplex.Prelude.{
  ℕ, ◌≡◌, ap, ◌∙◌, subst, List, [], ◌∷◌, ◌++◌, some, arith, Bool, true, false, inl, inr, ◌⊎◌,
}
use coro_iomultiplex.Async.Pool.{Pool, bound_to, add_task, runs, run_tasks, contains}
use coro_iomultiplex.Async.Pool.Add.{add_task-Added, run_tasks-IsBound}
use coro_iomultiplex.Async.Pool.History.{
  World, IsSafe, contains-append, clean_tasks-few, Step-IsSafe, run_tasks-not_destroyed,
}
use coro_iomultiplex.Async.Pool.History
use coro_iomultiplex.Async.Epoll.Sockets.{is_held, Scene, with_pool}

-- A task has a queue, or it is destroyed.
abbrev pub IsKnown : World → ℕ → Type 0
IsKnown w r = (contains r w.destroyed ≡ true) ⊎ ((k : ℕ) × (bound_to r w.pool.binding ≡ some k))

-- A handler that is destroyed leaves a socket that nobody holds.
pub record IsWatched (s : Scene) : Type 0 where
  pub safe : IsSafe s.world
  pub closed :
      (h r : ℕ)
      → is_held h r s.held ≡ true
      → contains h s.world.destroyed ≡ true
      → contains r s.world.destroyed ≡ true
  pub known : (h r : ℕ) → is_held h r s.held ≡ true → (h ≡ r) ⊎ IsKnown s.world r

pub contains-left : (t : ℕ) (xs ys : List ℕ) → contains t xs ≡ true → contains t (xs ++ ys) ≡ true
unfolding contains
contains-left t [] ys h = ground arith
contains-left t (x ∷ xs) ys h = ground (arith, contains-left t xs ys)

pub contains-right : (t : ℕ) (xs ys : List ℕ) → contains t ys ≡ true → contains t (xs ++ ys) ≡ true
unfolding contains
contains-right t [] ys h = h
contains-right t (x ∷ xs) ys h = ground (arith, contains-right t xs ys)

-- Who holds a socket when one more holder came.
is_held-cases :
    (h r g q : ℕ) (held : List (ℕ × ℕ))
    → is_held h r ((g, q) ∷ held) ≡ true
    → ((g ≡ h) × (q ≡ r)) ⊎ (is_held h r held ≡ true)
unfolding is_held
is_held-cases h r g q held e = ground arith

pub IsKnown-add_task :
    (w : World) (t r : ℕ) (p : Pool)
    → IsSafe w
    → add_task w.pool t ≡ some p
    → IsKnown w r
    → IsKnown (with_pool w p) r
IsKnown-add_task w t r p s e (inl gone) = inl gone
IsKnown-add_task w t r p s e (inr (k, b)) =
    let (p', e', a) = add_task-Added w.pool t s.valid in
    let same : p' ≡ p = ground arith in
    inr (k, subst (λ (q : Pool). bound_to r q.binding ≡ some k) same (a.kept r k b))

pub added-IsKnown :
    (w : World) (t : ℕ) (p : Pool)
    → IsSafe w
    → add_task w.pool t ≡ some p
    → IsKnown (with_pool w p) t
added-IsKnown w t p s e =
    let (p', e', a) = add_task-Added w.pool t s.valid in
    let same : p' ≡ p = ground arith in
    inr (a.queue, subst (λ (q : Pool). bound_to t q.binding ≡ some a.queue) same a.is_bound)

pub added-IsWatched :
    (s : Scene) (t : ℕ) (p : Pool)
    → contains t s.world.destroyed ≡ false
    → add_task s.world.pool t ≡ some p
    → IsWatched s
    → IsWatched (record s { world = with_pool s.world p })
added-IsWatched s t p new e i = record {
  safe = Step-IsSafe (History.adds t p new e) i.safe;
  closed = i.closed;
  known = λ h r held. elim (i.known h r held) [
    | inl same ↦ inl same
    | inr k ↦ inr (IsKnown-add_task s.world t r p i.safe e k)
  ];
}

pub held-IsWatched :
    (s : Scene) (h r : ℕ)
    → contains h s.world.destroyed ≡ false
    → (h ≡ r) ⊎ IsKnown s.world r
    → IsWatched s
    → IsWatched (record s { held = (h, r) ∷ s.held })
held-IsWatched s h r alive k i = record {
  safe = i.safe;
  closed = λ g q held gone. elim (is_held-cases g q h r s.held held) [
    | inl same ↦ cc (same.0, alive, gone)
    | inr old ↦ i.closed g q old gone
  ];
  known = λ g q held. elim (is_held-cases g q h r s.held held) [
    | inl same ↦
        subst (λ y. (g ≡ y) ⊎ IsKnown s.world y) same.1
          (subst (λ x. (x ≡ r) ⊎ IsKnown s.world r) same.0 k)
    | inr old ↦ i.known g q old
  ];
}

pub taken-IsWatched :
    (s : Scene) (done : ℕ → Bool) (i t : ℕ) (p : Pool) (resumed : Bool)
    → run_tasks done s.world.pool i ≡ runs p t resumed
    → IsWatched s
    → IsWatched (record s { world = with_pool s.world p })
taken-IsWatched s done i t p resumed e w =
    let (rest, front, eq, q, b, v) =
      run_tasks-IsBound done s.world.pool i p t resumed w.safe.valid e in
    record {
      safe = Step-IsSafe (History.takes done i t p resumed e) w.safe;
      closed = w.closed;
      known = λ h r held. elim (w.known h r held) [
        | inl same ↦ inl same
        | inr (inl gone) ↦ inr (inl gone)
        | inr (inr (k, was)) ↦ inr (inr (k, ap (λ (x : Pool). bound_to r x.binding) eq ∙ was))
      ];
    }
