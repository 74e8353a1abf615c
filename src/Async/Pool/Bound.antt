-- ===== src/Async/Pool/Bound.antt =====
-- The invariant of the threadPool of include/async/Loop.hpp, and its queues under it.
use coro_iomultiplex.Prelude.{
  ℕ, zero, suc, ◌+◌, ◌<◌, ◌≡◌, refl, subst, List, [], ◌∷◌, none, some, arith, length, get_elem?,
  set, All,
}
use coro_iomultiplex.Async.Pool.{Pool, Cursor, at_queue, at_end, bound_to}

-- Every task stands in the queue that it is bound to; the first queue has the number `i`.
abbrev pub InPlace : List (ℕ × ℕ) → ℕ → List (List ℕ) → Type 0
InPlace b i [] = Unit
InPlace b i (q ∷ qs) = All (λ t. bound_to t b ≡ some i) q × InPlace b (suc i) qs

-- Each binding is to one of `n` queues, and each task has one.
abbrev pub InRange : ℕ → List (ℕ × ℕ) → Type 0
InRange n [] = Unit
InRange n ((t, i) ∷ b) = (i < n) × (bound_to t b ≡ none) × InRange n b

abbrev pub IsQueue : ℕ → Cursor → Type 0
IsQueue n (at_queue i) = i < n
IsQueue n at_end = ⊥

pub record IsBound (p : Pool) : Type 0 where
  pub in_place : InPlace p.binding 0 p.queues
  pub in_range : InRange (length p.queues) p.binding
  pub ready : IsQueue (length p.queues) p.current

pub bound_to-lt : (n : ℕ) (b : List (ℕ × ℕ)) (t i : ℕ) → InRange n b → bound_to t b ≡ some i → i < n
unfolding bound_to
bound_to-lt n [] t i r h = absurd (ground arith)
bound_to-lt n ((u, j) ∷ b) t i r h = ground (arith, bound_to-lt n b t i r.2)

pub get_elem?-lt {ℓ} :
    {A : Type ℓ} (xs : List A) (i : ℕ) → i < length xs → (x : A) × (get_elem? xs i ≡ some x)
get_elem?-lt [] i h = elim h [ ]
get_elem?-lt (x ∷ xs) zero h = (x, refl)
get_elem?-lt (x ∷ xs) (suc i) h = get_elem?-lt xs i (omega arith)

-- A queue that is replaced by one whose tasks are bound to it.
pub InPlace-set :
    (b : List (ℕ × ℕ)) (m i : ℕ) (qs : List (List ℕ)) (q : List ℕ)
    → InPlace b m qs
    → All (λ t. bound_to t b ≡ some (m + i)) q
    → InPlace b m (set qs i q)
InPlace-set b m i [] q h k = tt
InPlace-set b m zero (x ∷ qs) q h k =
    (subst (λ n. All (λ t. bound_to t b ≡ some n) q) {y = m} (omega arith) k, h.1)
InPlace-set b m (suc i) (x ∷ qs) q h k = (
  h.0,
  InPlace-set b (suc m) i qs q h.1
      (subst (λ n. All (λ t. bound_to t b ≡ some n) q) {y = suc m + i} (omega arith) k),
)

pub InPlace-at :
    (b : List (ℕ × ℕ)) (m i : ℕ) (qs : List (List ℕ)) (q : List ℕ)
    → InPlace b m qs
    → get_elem? qs i ≡ some q
    → All (λ t. bound_to t b ≡ some (m + i)) q
InPlace-at b m i [] q h e = absurd (ground arith)
InPlace-at b m zero (x ∷ qs) q h e =
    subst (λ n. All (λ t. bound_to t b ≡ some n) q) {x = m} (omega arith)
      (subst (All (λ t. bound_to t b ≡ some m)) (ground arith) h.0)
InPlace-at b m (suc i) (x ∷ qs) q h e =
    subst (λ n. All (λ t. bound_to t b ≡ some n) q) {x = suc m + i} (omega arith)
      (InPlace-at b (suc m) i qs q h.1 e)

All-map {ℓ κ μ} :
    {A : Type ℓ} (P : A → Type κ) (Q : A → Type μ) (xs : List A)
    → ((x : A) → P x → Q x)
    → All P xs
    → All Q xs
All-map P Q [] f h = tt
All-map P Q (x ∷ xs) f h = (f x h.0, All-map P Q xs f h.1)

-- A new binding leaves the old ones.
pub InPlace-bind :
    (b : List (ℕ × ℕ)) (t j m : ℕ) (qs : List (List ℕ))
    → bound_to t b ≡ none
    → InPlace b m qs
    → InPlace ((t, j) ∷ b) m qs
unfolding bound_to
InPlace-bind b t j m [] new h = tt
InPlace-bind b t j m (q ∷ qs) new h = (
  All-map (λ u. bound_to u b ≡ some m) (λ u. bound_to u ((t, j) ∷ b) ≡ some m) q
      (λ u e. ground arith) h.0,
  InPlace-bind b t j (suc m) qs new h.1,
)
