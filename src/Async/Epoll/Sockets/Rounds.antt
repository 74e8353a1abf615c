-- ===== src/Async/Epoll/Sockets/Rounds.antt =====
-- What a round of the cleaner keeps of the watched sockets.
use coro_iomultiplex.Prelude.{
  ℕ, ◌≡◌, sym, ◌∙◌, subst, List, ◌++◌, arith, length, ltb, Bool, true, inl, inr, Bool-cases,
}
use coro_iomultiplex.Async.Pool.{Pool, contains, clean_tasks, clean_limit}
use coro_iomultiplex.Async.Pool.Clean.{Cleaned, clean_tasks-Cleaned}
use coro_iomultiplex.Async.Pool.History.{
  World, IsSafe, contains-append, clean_tasks-few, Step-IsSafe, run_tasks-not_destroyed,
}
use coro_iomultiplex.Async.Pool.History
use coro_iomultiplex.Async.Epoll.Sockets.{is_held, Scene, cleaned, EndsLast}
use coro_iomultiplex.Async.Epoll.Sockets.Watched.{IsKnown, IsWatched, contains-left, contains-right}

-- After a round that cleaned, a task is known still, and it is destroyed if it is done.
cleaned-IsKnown :
    (done : ℕ → Bool) (w : World) (r : ℕ)
    → Cleaned done w.pool (clean_tasks done w.pool).0 (clean_tasks done w.pool).1
    → IsKnown w r
    → IsKnown (cleaned done w) r × (done r ≡ true → contains r (cleaned done w).destroyed ≡ true)
cleaned-IsKnown done w r c (inl gone) =
    let out : contains r (cleaned done w).destroyed ≡ true =
      contains-right r (clean_tasks done w.pool).1 w.destroyed gone in
    (inl out, λ d. out)
cleaned-IsKnown done w r c (inr (k, b)) = elim (Bool-cases (done r)) [
  | inr d ↦ (inr (k, c.others r d ∙ b), λ e. absurd (ground arith))
  | inl d ↦
      let out : contains r (cleaned done w).destroyed ≡ true =
        contains-left r (clean_tasks done w.pool).1 w.destroyed (c.complete r k d b) in
      (inl out, λ e. out)
]

cleaned-closed :
    (done : ℕ → Bool) (s : Scene) (h r : ℕ)
    → Cleaned done s.world.pool (clean_tasks done s.world.pool).0 (clean_tasks done s.world.pool).1
    → EndsLast done s
    → IsWatched s
    → is_held h r s.held ≡ true
    → contains h (cleaned done s.world).destroyed ≡ true
    → contains r (cleaned done s.world).destroyed ≡ true
cleaned-closed done s h r c last i held gone =
    let out = (clean_tasks done s.world.pool).1 in
    let old = s.world.destroyed in
    elim (Bool-cases (contains r old)) [
      | inl e ↦ contains-right r out old e
      | inr alive ↦ elim (Bool-cases (contains h out)) [
        | inr e ↦ contains-right r out old (i.closed h r held (contains-append h out old gone e))
        | inl now ↦ elim (i.known h r held) [
          | inl same ↦ subst (λ x. contains x (out ++ old) ≡ true) same gone
          | inr k ↦ (cleaned-IsKnown done s.world r c k).1 (last h r held alive (c.gone h now).0)
        ]
      ]
    ]

pub cleaned-IsWatched :
    (done : ℕ → Bool) (s : Scene)
    → EndsLast done s
    → IsWatched s
    → IsWatched (record s { world = cleaned done s.world })
cleaned-IsWatched done s last i =
    elim (Bool-cases (ltb (length s.world.pool.binding) clean_limit)) [
      | inl few ↦
          subst
            (λ (x : Pool × List ℕ).
              IsWatched
                (record s { world = record { pool = x.0; destroyed = x.1 ++ s.world.destroyed } }))
            (sym (clean_tasks-few done s.world.pool few))
            (record { safe = i.safe; closed = i.closed; known = i.known })
      | inr many ↦
          let c = clean_tasks-Cleaned done s.world.pool i.safe.valid many in
          record {
            safe = Step-IsSafe (History.cleans done) i.safe;
            closed = λ h r. cleaned-closed done s h r c last i;
            known = λ h r held. elim (i.known h r held) [
              | inl same ↦ inl same
              | inr k ↦ inr (cleaned-IsKnown done s.world r c k).0
            ];
          }
    ]
