-- ===== src/Descriptors/Lost.antt =====
-- The descriptor that the move assignment of socketBase, include/http/Socket.hpp, writes over.
use coro_iomultiplex.Prelude.{ℕ, ◌≡◌, ◌≢◌, true, false, some, arith}
use coro_iomultiplex.Descriptors.{
  Holders, no_holders, put_fd, set_open, make, move_into, drop_fd, reopen, Call, makes, moves,
  drops, fails_open, opens, Calls, here, next,
}
use coro_iomultiplex.Descriptors.Owned.{Calls-IsOwned, no_holders-IsOwned}

-- The descriptor is open, and no object holds it.
pub record IsLost (fd : ℕ) (w : Holders) : Type 0 where
  pub still_open : w.is_open fd ≡ true
  pub held_by_none : (o : ℕ) → w.fd_of o ≢ some fd

make-IsLost :
    (fd : ℕ) (w : Holders) (o n : ℕ) → IsLost fd w → w.is_open n ≡ false → IsLost fd (make o n w)
unfolding make put_fd set_open
make-IsLost fd w o n lost new = record {
  still_open = ground (arith, lost.still_open);
  held_by_none = λ q h. ground (arith, lost.still_open, lost.held_by_none q);
}

drop_fd-IsLost : (fd : ℕ) (w : Holders) (o : ℕ) → IsLost fd w → IsLost fd (drop_fd o w)
unfolding drop_fd put_fd set_open
drop_fd-IsLost fd w o lost = record {
  still_open = ground (arith, lost.still_open, lost.held_by_none o);
  held_by_none = λ q h. ground (arith, lost.held_by_none q);
}

move_into-IsLost :
    (fd : ℕ) (w : Holders) (o other : ℕ) → IsLost fd w → IsLost fd (move_into o other w)
unfolding move_into put_fd
move_into-IsLost fd w o other lost = record {
  still_open = lost.still_open;
  held_by_none = λ q h. ground (arith, lost.held_by_none q, lost.held_by_none other);
}

Call-IsLost : (fd : ℕ) (w : Holders) {u : Holders} → IsLost fd w → Call w u → IsLost fd u
unfolding reopen
Call-IsLost fd w lost (makes o n empty new) = make-IsLost fd w o n lost new
Call-IsLost fd w lost (moves o other) = move_into-IsLost fd w o other lost
Call-IsLost fd w lost (drops o) = drop_fd-IsLost fd w o lost
Call-IsLost fd w lost (fails_open o) = drop_fd-IsLost fd w o lost
Call-IsLost fd w lost (opens o n new) =
    make-IsLost fd (drop_fd o w) o n (drop_fd-IsLost fd w o lost) new

Calls-IsLost : (fd : ℕ) (w : Holders) {u : Holders} → IsLost fd w → Calls w u → IsLost fd u
Calls-IsLost fd w lost here = lost
Calls-IsLost fd w lost (next {u} calls call) = Call-IsLost fd u (Calls-IsLost fd w lost calls) call

-- Moving into an object that holds a descriptor, by the move assignment of socketBase, loses it for
-- good: whatever is called after that, it stays open and no object holds it, so none closes it.
pub move_into-lost :
    (w u : Holders) (o other fd : ℕ)
    → Calls no_holders w
    → w.fd_of o ≡ some fd
    → Calls (move_into o other w) u
    → (u.is_open fd ≡ true) × ((q : ℕ) → u.fd_of q ≢ some fd)
unfolding move_into put_fd
move_into-lost w u o other fd calls at after =
    let owned = Calls-IsOwned no_holders no_holders-IsOwned calls in
    let lost =
      Calls-IsLost fd (move_into o other w)
        (record {
          still_open = owned.opened o fd at;
          held_by_none = λ q h. ground (arith, at, owned.alone o q fd, owned.alone o other fd);
        })
        after in
    (lost.still_open, lost.held_by_none)
