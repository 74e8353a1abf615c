-- ===== src/Async/Locks/Progress.antt =====
-- The threads of include/async/Loop.hpp never block each other for good.
use coro_iomultiplex.Prelude.{
  ℕ, zero, suc, ◌<◌, ◌≡◌, refl, sym, ap, subst, List, [], ◌∷◌, ◌++◌, false, Option, some,
  Bool-cases, Option-cases, ◌⊎◌, inl, inr, arith,
}
use coro_iomultiplex.Async.Locks.{Hold, Place, holds, Move, goes_with, lets, IsFree, IsAllowed}
use coro_iomultiplex.Async.Locks.Ranks.{is_idle, wants, rank, next, rank-lt, is_idle-held}

-- A lock is free, or some thread holds it in a way that stands against it.
IsFree-or_held :
    (ts : List Place) (h : Hold)
    → IsFree false ts h
      ⊎ ((before : List Place) × (q : Place) × (after : List Place) × (ts ≡ before ++ (q ∷ after))
          × (goes_with h (holds q) ≡ false))
unfolding lets
IsFree-or_held [] h = inl tt
IsFree-or_held (q ∷ ts) h = elim (Bool-cases (goes_with h (holds q))) [
  | inr held ↦ inr ([], q, ts, refl, held)
  | inl fine ↦ elim (IsFree-or_held ts h) [
    | inl free ↦ inl (ground arith, free)
    | inr (before, r, after, at, held) ↦ inr (q ∷ before, r, after, ap (λ l. q ∷ l) at, held)
  ]
]

-- A thread that is not idle can move.
pub record CanGo (ts : List Place) : Type 0 where
  pub before : List Place
  pub place : Place
  pub after : List Place
  pub next_place : Place
  pub need : Option Hold
  pub at : ts ≡ before ++ (place ∷ after)
  pub busy : is_idle place ≡ false
  pub move : Move place need next_place
  pub allowed : IsAllowed false ts need

go :
    (ts before : List Place) (p : Place) (after : List Place)
    → ts ≡ before ++ (p ∷ after)
    → is_idle p ≡ false
    → IsAllowed false ts (wants p)
    → CanGo ts
go ts before p after at busy allowed = record {
  before = before;
  place = p;
  after = after;
  next_place = (next p busy).0;
  need = wants p;
  at = at;
  busy = busy;
  move = (next p busy).1;
  allowed = allowed;
}

-- What a thread waits for is free, or whoever holds it waits for less.
rank-CanGo :
    (n : ℕ) (ts before : List Place) (p : Place) (after : List Place)
    → ts ≡ before ++ (p ∷ after)
    → is_idle p ≡ false
    → ((k : Hold) → wants p ≡ some k → rank k < n)
    → CanGo ts
rank-CanGo zero ts before p after at busy below = elim (Option-cases (wants p)) [
  | inl e ↦ go ts before p after at busy (subst (IsAllowed false ts) (sym e) tt)
  | inr (k, e) ↦ absurd (omega (arith, below k e))
]
rank-CanGo (suc n) ts before p after at busy below = elim (Option-cases (wants p)) [
  | inl e ↦ go ts before p after at busy (subst (IsAllowed false ts) (sym e) tt)
  | inr (k, e) ↦ elim (IsFree-or_held ts k) [
    | inl free ↦ go ts before p after at busy (subst (IsAllowed false ts) (sym e) free)
    | inr (before', q, after', at', held) ↦
        rank-CanGo n ts before' q after' at' (is_idle-held k q held)
          (λ k' e'. omega (arith, rank-lt k q k' held e', below k e))
  ]
]

-- However the threads stand, if one of them is not idle then one that is not idle can move: the
-- locks of addTask, runTasks, cleanTasks and the threads' start never block all of them, as long as
-- a thread that waits to own cleanWorkMutex does not hold new readers back.
pub is_idle-CanGo :
    (ts before : List Place) (p : Place) (after : List Place)
    → ts ≡ before ++ (p ∷ after)
    → is_idle p ≡ false
    → CanGo ts
unfolding rank
is_idle-CanGo ts before p after at busy =
    rank-CanGo 6 ts before p after at busy (λ k e. ground arith)
