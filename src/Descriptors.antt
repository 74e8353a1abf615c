-- ===== src/Descriptors.antt =====
-- The objects that hold a descriptor: socketBase of include/http/Socket.hpp and regularFile of
-- include/file/File.hpp. An object is a number; what the kernel gives is an argument.
pub mod Owned
pub mod Lost
pub mod Tests
use coro_iomultiplex.Prelude.{ℕ, ◌≡◌, ◌==◌, Bool, true, false, Option, none, some, if◌then◌else◌}

-- The descriptor of each object, none for a negative one; and those that are open.
pub record Holders : Type 0 where
  pub fd_of : ℕ → Option ℕ
  pub is_open : ℕ → Bool

-- No object, and no descriptor.
abbrev pub no_holders : Holders
no_holders = record { fd_of = λ o. none; is_open = λ fd. false }

-- `fd = ...` of an object.
unfoldable pub put_fd : ℕ → Option ℕ → Holders → Holders
put_fd o fd w = record w { fd_of = λ q. if q == o then fd else w.fd_of q }

unfoldable pub set_open : ℕ → Bool → Holders → Holders
set_open fd b w = record w { is_open = λ n. if n == fd then b else w.is_open n }

-- socketBase(int), or `::open`: an object gets a descriptor that the kernel has just opened.
unfoldable pub make : ℕ → ℕ → Holders → Holders
unfolding put_fd set_open
make o fd w = put_fd o (some fd) (set_open fd true w)

-- `fd = other.fd; other.fd = -1`: the move constructors, and socketBase's move assignment.
unfoldable pub move_into : ℕ → ℕ → Holders → Holders
unfolding put_fd
move_into o other w = put_fd other none (put_fd o (w.fd_of other) w)

-- The destructors, and regularFile::open on its old descriptor: `if (fd >= 0) close(fd)`.
unfoldable pub drop_fd : ℕ → Holders → Holders
unfolding put_fd set_open
drop_fd o w = elim (w.fd_of o) [ none ↦ w | some fd ↦ put_fd o none (set_open fd false w) ]

-- regularFile::open, on what `::open` gives; none for a failure.
unfoldable pub reopen : ℕ → Option ℕ → Holders → Holders
unfolding make drop_fd
reopen o none w = drop_fd o w
reopen o (some fd) w = make o fd (drop_fd o w)

-- A call; the kernel gives only a descriptor that is not open then.
pub data Call (w : Holders) : Holders → Type 0 where
  makes : (o fd : ℕ) → w.fd_of o ≡ none → w.is_open fd ≡ false → Call w (make o fd w)
  moves : (o other : ℕ) → Call w (move_into o other w)
  drops : (o : ℕ) → Call w (drop_fd o w)
  fails_open : (o : ℕ) → Call w (reopen o none w)
  opens : (o fd : ℕ) → (drop_fd o w).is_open fd ≡ false → Call w (reopen o (some fd) w)

-- Any number of calls.
pub data Calls (w : Holders) : Holders → Type 0 where
  here : Calls w w
  next : {u v : Holders} → Calls w u → Call u v → Calls w v
