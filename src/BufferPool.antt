-- ===== src/BufferPool.antt =====
-- bufferPool of include/utils/BufferPool.hpp: the flags `used`, one for each of its N buffers. A
-- buffer is its number; each test_and_set is one step of the scan.
pub mod Laws
pub mod Scans
pub mod Tests
use coro_iomultiplex.Prelude.{
  ℕ, zero, suc, ◌≡◌, Bool, true, false, List, [], ◌∷◌, Option, none, some, length,
}

-- What the scan of getBuffer does: which buffer it takes and the flags then.
pub record Taken : Type 0 where
  pub index : ℕ
  pub used : List Bool

-- The flag before it was passed over, put back in front of what was taken behind it.
abbrev pub behind : Option Taken → Option Taken
behind none = none
behind (some t) = some (record { index = suc t.index; used = true ∷ t.used })

-- getBuffer; `none` throws bufferRunOut.
unfoldable pub get_buffer : List Bool → Option Taken
get_buffer [] = none
get_buffer (false ∷ used) = some (record { index = 0; used = true ∷ used })
get_buffer (true ∷ used) = behind (get_buffer used)

-- returnBuffer: a span that is no buffer of the pool is ignored.
unfoldable pub return_buffer : ℕ → List Bool → List Bool
return_buffer i [] = []
return_buffer zero (u ∷ used) = false ∷ used
return_buffer (suc i) (u ∷ used) = u ∷ return_buffer i used

-- The constructor: no buffer is used.
unfoldable pub new_pool : ℕ → List Bool
new_pool zero = []
new_pool (suc n) = false ∷ new_pool n
