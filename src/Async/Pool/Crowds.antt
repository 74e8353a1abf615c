-- ===== src/Async/Pool/Crowds.antt =====
-- As many bindings as cleanTasks of include/async/Loop.hpp waits for.
use coro_iomultiplex.Prelude.{
  ℕ, zero, suc, ◌<◌, ◌≡◌, refl, arith, List, [], ◌∷◌, none, some, false, length, ltb,
}
use coro_iomultiplex.Async.Pool.{bound_to, clean_limit}
use coro_iomultiplex.Async.Pool.Bound.{InRange}

-- Tasks that are bound to the first queue.
abbrev pub bindings : ℕ → List (ℕ × ℕ)
bindings zero = []
bindings (suc n) = (n, 0) ∷ bindings n

bound_to-new : (n t : ℕ) → n < suc t → bound_to t (bindings n) ≡ none
unfolding bound_to
bound_to-new zero t h = refl
bound_to-new (suc n) t h = ground (arith, bound_to-new n t (omega arith))

pub bound_to-old : (n t : ℕ) → t < n → bound_to t (bindings n) ≡ some 0
unfolding bound_to
bound_to-old zero t h = elim h [ ]
bound_to-old (suc n) t h = ground (arith, bound_to-old n t)

pub bindings-InRange : (n : ℕ) → InRange 1 (bindings n)
bindings-InRange zero = tt
bindings-InRange (suc n) = (omega arith, bound_to-new n n (omega arith), bindings-InRange n)

pub length-bindings : (n : ℕ) → length (bindings n) ≡ n
length-bindings zero = refl
length-bindings (suc n) = omega (arith, length-bindings n)

pub full : (n : ℕ) → n ≡ 10000 → ltb n clean_limit ≡ false
full n h = ground arith
