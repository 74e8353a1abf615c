-- ===== src/BufferPool/Tests.antt =====
-- bufferPool of include/utils/BufferPool.hpp on concrete flags.
use coro_iomultiplex.Prelude.{true, refl, arith}
use coro_iomultiplex.BufferPool.Scans.{
  Scene, scans, has_buffer, stand, flag, at_rest, begins, takes, Reach, here, next, IsExclusive,
  Reach-IsExclusive,
}

-- One thread takes the first of two buffers.
abbrev scanning : Scene
scanning = stand 3 (scans 0) at_rest

abbrev holding : Scene
holding = stand 3 (has_buffer 0) (flag 0 true scanning)

holds-first : Reach 2 at_rest holding
unfolding stand flag
holds-first = next (next here (begins 3 refl)) (takes 3 0 refl (omega arith) refl)

Reach-IsExclusive_example : IsExclusive 2 holding
Reach-IsExclusive_example = Reach-IsExclusive 2 holds-first
