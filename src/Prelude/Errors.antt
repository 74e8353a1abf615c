-- ===== src/Prelude/Errors.antt =====
-- tl::expected over std::error_code: an error is a number in a category.
use Prim.Native.Nat.{ℕ}
use mathlib.Core.Bool.{Bool, true, false, ◌&&◌}
use coro_iomultiplex.Prelude.Tests.{◌==◌}

-- The std::error_category objects that the program compares.
pub data Category : Type 0 where
  http_error socket_error uring_error generic_error system_error : Category

pub record ErrorCode : Type 0 where
  pub number : ℕ
  pub category : Category

abbrev pub same_category : Category → Category → Bool
same_category http_error http_error = true
same_category socket_error socket_error = true
same_category uring_error uring_error = true
same_category generic_error generic_error = true
same_category system_error system_error = true
same_category _ _ = false

-- `a == b` on std::error_code.
abbrev pub same_error : ErrorCode → ErrorCode → Bool
same_error a b = same_category a.category b.category && a.number == b.number

pub data Expected {ℓ} (A : Type ℓ) : Type ℓ where
  value : A → Expected A
  unexpected : ErrorCode → Expected A
