-- ===== src/Descriptors/Owned.antt =====
-- Each open descriptor of an object of include/http/Socket.hpp and include/file/File.hpp is its own.
use coro_iomultiplex.Prelude.{ℕ, ◌≡◌, ◌≢◌, true, false, some, arith}
use coro_iomultiplex.Descriptors.{
  Holders, no_holders, put_fd, set_open, make, move_into, drop_fd, reopen, Call, makes, moves,
  drops, fails_open, opens, Calls, here, next,
}

-- What an object holds is open, and no other object holds it.
pub record IsOwned (w : Holders) : Type 0 where
  pub opened : (o fd : ℕ) → w.fd_of o ≡ some fd → w.is_open fd ≡ true
  pub alone : (o q fd : ℕ) → w.fd_of o ≡ some fd → w.fd_of q ≡ some fd → o ≡ q

make-IsOwned : (w : Holders) (o fd : ℕ) → IsOwned w → w.is_open fd ≡ false → IsOwned (make o fd w)
unfolding make put_fd set_open
make-IsOwned w o fd owned new = record {
  opened = λ q n h. ground (arith, owned.opened q n);
  alone = λ q r n h k. ground (arith, owned.alone q r n, owned.opened q n, owned.opened r n);
}

move_into-IsOwned : (w : Holders) (o other : ℕ) → IsOwned w → IsOwned (move_into o other w)
unfolding move_into put_fd
move_into-IsOwned w o other owned = record {
  opened = λ q n h. ground (arith, owned.opened q n, owned.opened other n);
  alone =
      λ q r n h k. ground (arith, owned.alone q r n, owned.alone other r n, owned.alone q other n);
}

drop_fd-IsOwned : (w : Holders) (o : ℕ) → IsOwned w → IsOwned (drop_fd o w)
unfolding drop_fd put_fd set_open
drop_fd-IsOwned w o owned = record {
  opened = λ q n h. ground (arith, owned.opened q n, owned.alone o q n);
  alone = λ q r n h k. ground (arith, owned.alone q r n);
}

Call-IsOwned : (w : Holders) {u : Holders} → IsOwned w → Call w u → IsOwned u
unfolding reopen
Call-IsOwned w owned (makes o fd empty new) = make-IsOwned w o fd owned new
Call-IsOwned w owned (moves o other) = move_into-IsOwned w o other owned
Call-IsOwned w owned (drops o) = drop_fd-IsOwned w o owned
Call-IsOwned w owned (fails_open o) = drop_fd-IsOwned w o owned
Call-IsOwned w owned (opens o fd new) =
    make-IsOwned (drop_fd o w) o fd (drop_fd-IsOwned w o owned) new

pub Calls-IsOwned : (w : Holders) {u : Holders} → IsOwned w → Calls w u → IsOwned u
Calls-IsOwned w owned here = owned
Calls-IsOwned w owned (next {u} calls call) = Call-IsOwned u (Calls-IsOwned w owned calls) call

pub no_holders-IsOwned : IsOwned no_holders
no_holders-IsOwned = record {
  opened = λ o fd h. absurd (ground arith);
  alone = λ o q fd h k. absurd (ground arith);
}

-- Over any calls that make, move, open and destroy objects, from none on: what an object holds is
-- open, and no other object holds it; and when its object closes it, it was open, and no object holds
-- it then. So no descriptor is closed twice, nor one that is another's.
pub drop_fd-once :
    (w : Holders) (o fd : ℕ)
    → Calls no_holders w
    → w.fd_of o ≡ some fd
    → (w.is_open fd ≡ true)
      × ((q : ℕ) → q ≢ o → w.fd_of q ≢ some fd)
      × ((drop_fd o w).is_open fd ≡ false)
      × ((q : ℕ) → (drop_fd o w).fd_of q ≢ some fd)
unfolding drop_fd put_fd set_open
drop_fd-once w o fd calls at =
    let owned = Calls-IsOwned no_holders no_holders-IsOwned calls in
    (
      owned.opened o fd at,
      (λ q ne h. ne (owned.alone q o fd h at)),
      ground (arith, at),
      (λ q h. ground (arith, at, owned.alone o q fd)),
    )
