-- ===== src/Setup/Launched.antt =====
-- What serverSocket of include/http/Socket.hpp leaves, whatever its system calls give.
use coro_iomultiplex.Prelude.{ℕ, ◌+◌, ◌==◌, ◌≡◌, refl, false, List, [], ◌∷◌, ◌++◌, arith}
use coro_iomultiplex.Http.Socket.{Answer, returned, failed, errc}
use coro_iomultiplex.Async.Pool.{erase_if, contains}
use coro_iomultiplex.Setup.{
  System, NameLookup, found, not_found, Mark, option, non_blocking, is_bound, listening,
  system_error, gives, throws, Calls, so_reuseport, checked, set_options, bind_socket,
  closes_if_thrown, close, server_socket, listen_on, launch,
}

-- This is in errno after the first call that fails, apart from setsockopt, and so many address lists
-- are not freed. What getaddrinfo returns is not in errno.
pub data FailsWith (calls : Calls) : ℕ → ℕ → Type 0 where
  at_addresses : {code errno : ℕ} → calls.addresses ≡ not_found code errno → FailsWith calls errno 0
  at_socket :
      {errno : ℕ} → calls.addresses ≡ found → calls.socket ≡ failed errno → FailsWith calls errno 1
  at_flags :
      {errno fd : ℕ}
      → calls.addresses ≡ found
      → calls.socket ≡ returned fd
      → calls.flags ≡ failed errno
      → FailsWith calls errno 1
  at_bind :
      {errno fd : ℕ}
      → calls.addresses ≡ found
      → calls.socket ≡ returned fd
      → calls.flags ≡ returned tt
      → calls.bind ≡ failed errno
      → FailsWith calls errno 1
  at_listen :
      {errno fd : ℕ}
      → calls.addresses ≡ found
      → calls.socket ≡ returned fd
      → calls.flags ≡ returned tt
      → calls.bind ≡ returned tt
      → calls.listen ≡ failed errno
      → FailsWith calls errno 0

-- The marks that setsockopt leaves: SO_REUSEPORT alone.
abbrev pub reuse_marks : Answer (Unit {0}) → ℕ → List Mark
reuse_marks (returned u) fd = option fd so_reuseport ∷ []
reuse_marks (failed e) fd = []

-- A server that is ready.
pub record IsReady (calls : Calls) (s s' : System) (fd : ℕ) : Type 0 where
  pub made : calls.socket ≡ returned fd
  pub fine :
      (calls.addresses ≡ found)
      × (calls.flags ≡ returned tt)
      × (calls.bind ≡ returned tt)
      × (calls.listen ≡ returned tt)
  pub opened : s'.open_fds ≡ fd ∷ s.open_fds
  pub freed : s'.lists ≡ s.lists
  pub marked :
      s'.marks
      ≡ listening fd ∷ (is_bound fd ∷ (non_blocking fd ∷ (reuse_marks calls.options fd ++ s.marks)))

-- A server that is not.
pub record IsRefused (calls : Calls) (s s' : System) (errno : ℕ) : Type 0 where
  pub kept : ℕ
  pub fails : FailsWith calls errno kept
  pub closed : s'.open_fds ≡ s.open_fds
  pub lost : s'.lists ≡ s.lists + kept

erase_if-absent : (fd : ℕ) (l : List ℕ) → contains fd l ≡ false → erase_if (λ n. n == fd) l ≡ l
unfolding erase_if contains
erase_if-absent fd [] h = refl
erase_if-absent fd (n ∷ l) h = ground (arith, erase_if-absent fd l)

erase_if-new : (fd : ℕ) (l : List ℕ) → contains fd l ≡ false → erase_if (λ n. n == fd) (fd ∷ l) ≡ l
unfolding erase_if
erase_if-new fd l h = ground (arith, erase_if-absent fd l h)

-- The outcome over the answers.
pub data IsSettled (calls : Calls) (s : System) : Type 0 where
  ready :
      (fd : ℕ) (s' : System)
      → launch calls s ≡ (gives fd, s')
      → IsReady calls s s' fd
      → IsSettled calls s
  refused :
      (errno : ℕ) (s' : System)
      → launch calls s ≡ (throws (system_error (errc errno)), s')
      → IsRefused calls s s' errno
      → IsSettled calls s

launch_by :
    (a : NameLookup) (k : Answer ℕ) (o f b l : Answer (Unit {0})) (s : System)
    → let calls : Calls = record {
      addresses = a;
      socket = k;
      options = o;
      flags = f;
      bind = b;
      listen = l;
    } in
      ((fd : ℕ) → k ≡ returned fd → contains fd s.open_fds ≡ false) → IsSettled calls s
unfolding launch server_socket bind_socket set_options closes_if_thrown checked close listen_on
launch_by (not_found code e) k o f b l s new =
    refused e s refl
      (record { kept = 0; fails = at_addresses refl; closed = refl; lost = omega arith })
launch_by found (failed e) o f b l s new =
    refused e (record s { lists = s.lists + 1 }) refl
      (record { kept = 1; fails = at_socket refl refl; closed = refl; lost = refl })
launch_by found (returned fd) (returned v) (failed e) b l s new = refused e _ refl (record {
  kept = 1;
  fails = at_flags refl refl refl;
  closed = erase_if-new fd s.open_fds (new fd refl);
  lost = refl;
})
launch_by found (returned fd) (returned v) (returned w) (failed e) l s new =
    refused e _ refl (record {
      kept = 1;
      fails = at_bind refl refl refl refl;
      closed = erase_if-new fd s.open_fds (new fd refl);
      lost = refl;
    })
launch_by found (returned fd) (returned v) (returned w) (returned x) (failed e) s new =
    refused e _ refl (record {
      kept = 0;
      fails = at_listen refl refl refl refl refl;
      closed = erase_if-new fd s.open_fds (new fd refl);
      lost = omega arith;
    })
launch_by found (returned fd) (returned v) (returned w) (returned x) (returned y) s new =
    ready fd _ refl (record {
      made = refl;
      fine = (refl, refl, refl, refl);
      opened = refl;
      freed = omega arith;
      marked = refl;
    })
launch_by found (returned fd) (failed d) (failed e) b l s new = refused e _ refl (record {
  kept = 1;
  fails = at_flags refl refl refl;
  closed = erase_if-new fd s.open_fds (new fd refl);
  lost = refl;
})
launch_by found (returned fd) (failed d) (returned w) (failed e) l s new =
    refused e _ refl (record {
      kept = 1;
      fails = at_bind refl refl refl refl;
      closed = erase_if-new fd s.open_fds (new fd refl);
      lost = refl;
    })
launch_by found (returned fd) (failed d) (returned w) (returned x) (failed e) s new =
    refused e _ refl (record {
      kept = 0;
      fails = at_listen refl refl refl refl refl;
      closed = erase_if-new fd s.open_fds (new fd refl);
      lost = omega arith;
    })
launch_by found (returned fd) (failed d) (returned w) (returned x) (returned y) s new =
    ready fd _ refl (record {
      made = refl;
      fine = (refl, refl, refl, refl);
      opened = refl;
      freed = omega arith;
      marked = refl;
    })

-- Whatever the system calls give, a server is ready or it throws. It is ready when all calls but
-- setsockopt succeed: then it has its descriptor, which is non-blocking, bound and listening, no other
-- descriptor is opened or closed, and the address list is freed; and of the two options only
-- SO_REUSEPORT is set. Otherwise it throws what is in errno after the first call that fails, which for
-- getaddrinfo is not the error that it returned, and no descriptor stays open; but the address list
-- is lost when socket, fcntl or bind fails.
pub launch-IsSettled :
    (calls : Calls) (s : System)
    → ((fd : ℕ) → calls.socket ≡ returned fd → contains fd s.open_fds ≡ false)
    → IsSettled calls s
launch-IsSettled calls s new =
    launch_by calls.addresses calls.socket calls.options calls.flags calls.bind calls.listen s new
