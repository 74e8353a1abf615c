-- ===== src/Descriptors/Tests.antt =====
-- Objects of include/http/Socket.hpp with concrete descriptors.
use coro_iomultiplex.Prelude.{ℕ, ◌≡◌, ◌≢◌, refl, true, false, some}
use coro_iomultiplex.Descriptors.{
  Holders, no_holders, put_fd, set_open, make, drop_fd, Calls, makes, here, next,
}
use coro_iomultiplex.Descriptors.Owned.{drop_fd-once}

-- Two sockets.
abbrev one : Holders
one = make 0 5 no_holders

abbrev two : Holders
two = make 1 6 one

made : Calls no_holders two
unfolding make put_fd set_open
made = next (next here (makes 0 5 refl refl)) (makes 1 6 refl refl)

drop_fd-once_example :
    (two.is_open 5 ≡ true)
    × ((q : ℕ) → q ≢ 0 → two.fd_of q ≢ some 5)
    × ((drop_fd 0 two).is_open 5 ≡ false)
    × ((q : ℕ) → (drop_fd 0 two).fd_of q ≢ some 5)
unfolding make put_fd
drop_fd-once_example = drop_fd-once two 0 5 made refl
