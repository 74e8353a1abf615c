-- ===== src/Async/Epoll/Sockets/Stale.antt =====
-- What happens to a handler that is destroyed while its socket is open.
use coro_iomultiplex.Prelude.{
  ℕ, ◌≡◌, refl, sym, subst, List, [], ◌∷◌, ◌++◌, some, length, ltb, Bool, true, false, not, inl,
  inr, Bool-cases, get_elem?, get_elem?-set_self, set,
}
use coro_iomultiplex.Async.Pool.{
  Pool, bound_to, add_task, runs, run_tasks, contains, clean_tasks, clean_limit,
}
use coro_iomultiplex.Async.Pool.Add.{add_task-Added}
use coro_iomultiplex.Async.Pool.Clean.{clean_tasks-Cleaned}
use coro_iomultiplex.Async.Pool.Fifo.{get_elem?-in}
use coro_iomultiplex.Async.Pool.History.{IsSafe, contains-append}
use coro_iomultiplex.Async.Epoll.Sockets.{
  is_held, Scene, with_pool, cleaned, Step, reports, takes, Reach, here, next,
}
use coro_iomultiplex.Async.Epoll.Sockets.Watched.{contains-left}

-- A round that cleans while a handler is done, and a responder is not and holds its socket still: the
-- handler is destroyed and the socket open, and the next event adds the handler to a queue.
cleaned-stale :
    (done : ℕ → Bool) (s : Scene) (h r k : ℕ)
    → IsSafe s.world
    → is_held h r s.held ≡ true
    → contains r s.world.destroyed ≡ false
    → done r ≡ false
    → done h ≡ true
    → bound_to h s.world.pool.binding ≡ some k
    → ltb (length s.world.pool.binding) clean_limit ≡ false
    → (contains h (cleaned done s.world).destroyed ≡ true)
      × (contains r (cleaned done s.world).destroyed ≡ false)
      × ((p : Pool) × (add_task (cleaned done s.world).pool h ≡ some p))
cleaned-stale done s h r k safe held alive stays returned b many =
    let c = clean_tasks-Cleaned done s.world.pool safe.valid many in
    let out = (clean_tasks done s.world.pool).1 in
    let kept : contains r (out ++ s.world.destroyed) ≡ false =
      elim (Bool-cases (contains r (out ++ s.world.destroyed))) [
        | inr e ↦ e
        | inl e ↦ elim (Bool-cases (contains r out)) [
          | inl now ↦ cc ((c.gone r now).0, stays)
          | inr new ↦ cc (contains-append r out s.world.destroyed e new, alive)
        ]
      ] in
    let (p, added, a) = add_task-Added (cleaned done s.world).pool h c.valid in
    (contains-left h out s.world.destroyed (c.complete h k returned b), kept, (p, added))

before-Reach : {s u v : Scene} → Step s u → Reach u v → Reach s v
before-Reach st here = next here st
before-Reach st (next r last) = next (before-Reach st r) last

pub run_tasks-front :
    (done : ℕ → Bool) (p : Pool) (i t : ℕ) (rest : List ℕ)
    → get_elem? p.queues i ≡ some (t ∷ rest)
    → run_tasks done p i ≡ runs (record p { queues = set p.queues i rest }) t (not (done t))
unfolding run_tasks
run_tasks-front done p i t rest e = rw (e, run_tasks) refl

-- A thread takes what stands in front of a task.
takes_before :
    (s : Scene) (i t : ℕ) (q : List ℕ)
    → get_elem? s.world.pool.queues i ≡ some (q ++ (t ∷ []))
    → (u : Scene) × Reach s u
      × (u.world.destroyed ≡ s.world.destroyed)
      × (get_elem? u.world.pool.queues i ≡ some (t ∷ []))
takes_before s i t [] e = (s, here, refl, e)
takes_before s i t (x ∷ q) e =
    let p : Pool = record s.world.pool { queues = set s.world.pool.queues i (q ++ (t ∷ [])) } in
    let step =
      takes (λ n. false) i x p true
        (run_tasks-front (λ n. false) s.world.pool i x (q ++ (t ∷ [])) e) in
    let (u, r, same, front) =
      takes_before (record s { world = with_pool s.world p }) i t q
        (get_elem?-set_self s.world.pool.queues i (q ++ (t ∷ []))
          (get_elem?-in s.world.pool.queues i (x ∷ (q ++ (t ∷ []))) e)) in
    (u, before-Reach step r, same, front)

-- On a safe pool with as many bindings as the limit of the cleaner, where a handler that is bound has
-- returned, and a responder that holds its socket and is not destroyed has not: after a round of the
-- cleaner, steps can follow, an event of the socket, which stays open, and takes of the tasks queued
-- before, after which the handler is destroyed and is what a thread takes next.
pub taken-stale :
    (done : ℕ → Bool) (s : Scene) (h r k : ℕ)
    → IsSafe s.world
    → is_held h r s.held ≡ true
    → contains r s.world.destroyed ≡ false
    → done r ≡ false
    → done h ≡ true
    → bound_to h s.world.pool.binding ≡ some k
    → ltb (length s.world.pool.binding) clean_limit ≡ false
    → (u : Scene) × (i : ℕ) × (p : Pool) × Reach (record s { world = cleaned done s.world }) u
      × (contains h u.world.destroyed ≡ true)
      × ((still : ℕ → Bool) → run_tasks still u.world.pool i ≡ runs p h (not (still h)))
taken-stale done s h r k safe held alive stays returned b many =
    let (gone, kept, rest) = cleaned-stale done s h r k safe held alive stays returned b many in
    let c = clean_tasks-Cleaned done s.world.pool safe.valid many in
    let (p, added, a) = add_task-Added (cleaned done s.world).pool h c.valid in
    let after = record s { world = cleaned done s.world } in
    let event : Step after (record s { world = with_pool (cleaned done s.world) p }) =
      reports h r p held kept added in
    let (u, reached, same, front) =
      takes_before (record s { world = with_pool (cleaned done s.world) p }) a.queue h a.before
        a.now in
    (
      u,
      a.queue,
      record u.world.pool { queues = set u.world.pool.queues a.queue [] },
      before-Reach event reached,
      subst (λ l. contains h l ≡ true) (sym same) gone,
      (λ still. run_tasks-front still u.world.pool a.queue h [] front),
    )
