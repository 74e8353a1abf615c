-- ===== src/BufferPool/Laws.antt =====
-- getBuffer and returnBuffer of include/utils/BufferPool.hpp together.
use coro_iomultiplex.Prelude.{
  ℕ, zero, suc, ◌≤◌, ◌<◌, ◌≡◌, ◌≢◌, refl, ap, Bool, true, false, List, [], ◌∷◌, Option, none, some,
  length, get_elem?, arith,
}
use coro_iomultiplex.BufferPool.{Taken, behind, get_buffer, return_buffer}

-- How many buffers are in use.
unfoldable pub in_use : List Bool → ℕ
in_use [] = 0
in_use (true ∷ used) = suc (in_use used)
in_use (false ∷ used) = in_use used

-- A buffer that was free is handed out, its flag alone is set, every buffer before it is in use,
-- and giving it back restores the pool.
pub record IsTaken (used : List Bool) (t : Taken) : Type 0 where
  pub was_free : get_elem? used t.index ≡ some false
  pub is_used : get_elem? t.used t.index ≡ some true
  pub others : (j : ℕ) → j ≢ t.index → get_elem? t.used j ≡ get_elem? used j
  pub first : (j : ℕ) → j < t.index → get_elem? used j ≡ some true
  pub one_more : in_use t.used ≡ suc (in_use used)
  pub restored : return_buffer t.index t.used ≡ used

IsTaken-behind :
    (used : List Bool) (t : Taken)
    → IsTaken used t
    → IsTaken (true ∷ used) (record { index = suc t.index; used = true ∷ t.used })
unfolding in_use return_buffer
IsTaken-behind used t k = record {
  was_free = k.was_free;
  is_used = k.is_used;
  others = others;
  first = first;
  one_more = ap suc k.one_more;
  restored = ap (λ u. true ∷ u) k.restored;
}
  where
    others : (j : ℕ) → j ≢ suc t.index → get_elem? (true ∷ t.used) j ≡ get_elem? (true ∷ used) j
    others zero ne = refl
    others (suc j) ne = k.others j (λ e. ne (ap suc e))

    first : (j : ℕ) → j < suc t.index → get_elem? (true ∷ used) j ≡ some true
    first zero lt = refl
    first (suc j) lt = k.first j (omega arith)

-- What getBuffer does: it throws bufferRunOut when every buffer is in use, and else takes a free
-- one.
unfoldable pub IsOutcome : List Bool → Option Taken → Type 0
IsOutcome used none = in_use used ≡ length used
IsOutcome used (some t) = IsTaken used t × (in_use used < length used)

in_use-le : (used : List Bool) → in_use used ≤ length used
unfolding in_use
in_use-le [] = omega arith
in_use-le (true ∷ used) = ground (arith, in_use-le used)
in_use-le (false ∷ used) = ground (arith, in_use-le used)

IsTaken-here :
    (used : List Bool) → IsTaken (false ∷ used) (record { index = 0; used = true ∷ used })
unfolding in_use return_buffer
IsTaken-here used = record {
  was_free = refl;
  is_used = refl;
  others = others;
  first = λ j lt. absurd (omega arith);
  one_more = refl;
  restored = refl;
}
  where
    others : (j : ℕ) → j ≢ 0 → get_elem? (true ∷ used) j ≡ get_elem? (false ∷ used) j
    others zero ne = absurd (ne refl)
    others (suc j) ne = refl

-- getBuffer on any flags: bufferRunOut exactly when all are in use; else the first free buffer,
-- with its flag alone set, such that giving it back restores the flags.
pub get_buffer-IsOutcome : (used : List Bool) → IsOutcome used (get_buffer used)
unfolding get_buffer in_use IsOutcome
get_buffer-IsOutcome [] = refl
get_buffer-IsOutcome (false ∷ used) = (IsTaken-here used, ground (arith, in_use-le used))
get_buffer-IsOutcome (true ∷ used) =
    elim (get_buffer used) as (λ o. IsOutcome used o → IsOutcome (true ∷ used) (behind o)) [
      | none ↦ λ k. ap suc k
      | some t ↦ λ k. (IsTaken-behind used t k.0, omega (arith, k.1))
    ]
      (get_buffer-IsOutcome used)
