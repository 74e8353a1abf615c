-- ===== src/Prelude/Sums.antt =====
-- Sums over lists, and how a changed, a removed or a new element changes them.
use Prim.Native.Nat.{ℕ, zero, suc, ◌+◌}
use mathlib.Core.Path.{◌≡◌}
use mathlib.Core.List.{List, [], ◌∷◌, ◌++◌}
use mathlib.Core.Option.{some}
use native.Mathlib.Omega.{arith}
use coro_iomultiplex.Prelude.Tests.{◌==◌, if◌then◌else◌}
use coro_iomultiplex.Prelude.Lists.{get_elem?, set}

module _ {ℓ} {A : Type ℓ} (f : A → ℕ) where
  unfoldable pub sum_of : List A → ℕ
  sum_of [] = 0
  sum_of (x ∷ xs) = f x + sum_of xs

-- The list without the element at a place.
abbrev pub remove_at {ℓ} : {A : Type ℓ} → ℕ → List A → List A
remove_at i [] = []
remove_at zero (x ∷ xs) = xs
remove_at (suc i) (x ∷ xs) = x ∷ remove_at i xs

module _ {ℓ} {A : Type ℓ} (f : A → ℕ) where
  pub sum_of-append : (xs ys : List A) → sum_of f (xs ++ ys) ≡ sum_of f xs + sum_of f ys
  unfolding sum_of
  sum_of-append [] ys = omega arith
  sum_of-append (x ∷ xs) ys = omega (arith, sum_of-append xs ys)

  pub sum_of-set :
      (xs : List A) (i : ℕ) (x y : A)
      → get_elem? xs i ≡ some x
      → sum_of f (set xs i y) + f x ≡ sum_of f xs + f y
  unfolding sum_of
  sum_of-set [] i x y h = absurd (ground arith)
  sum_of-set (z ∷ xs) zero x y h = ground (arith, h)
  sum_of-set (z ∷ xs) (suc i) x y h = omega (arith, sum_of-set xs i x y h)

  pub sum_of-remove_at :
      (xs : List A) (i : ℕ) (x : A)
      → get_elem? xs i ≡ some x
      → sum_of f (remove_at i xs) + f x ≡ sum_of f xs
  unfolding sum_of
  sum_of-remove_at [] i x h = absurd (ground arith)
  sum_of-remove_at (z ∷ xs) zero x h = ground (arith, h)
  sum_of-remove_at (z ∷ xs) (suc i) x h = omega (arith, sum_of-remove_at xs i x h)

-- One if the numbers are equal.
abbrev pub same_number : ℕ → ℕ → ℕ
same_number t u = if u == t then 1 else 0

-- How often a number stands in a list.
abbrev pub count : ℕ → List ℕ → ℕ
count t = sum_of (same_number t)
