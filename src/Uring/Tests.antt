-- ===== src/Uring/Tests.antt =====
-- asyncAccept of include/uring/Socket.hpp on concrete completions.
use coro_iomultiplex.Prelude.{ℕ, ◌+◌, ◌≡◌, refl, [], ◌∷◌, ◌++◌, true, false, none, some, value}
use coro_iomultiplex.Http.Socket.{returned, failed, errc}
use coro_iomultiplex.Uring.{UserData, accepts_again}
use coro_iomultiplex.Uring.Completion.{handled}
use coro_iomultiplex.Uring.Accepting.{
  AcceptRequest, async_accept, all_tasks, tasks_of, async_accept-tasks,
}

abbrev data_of : UserData
data_of = record { multishot = false; handle = 0; return_val = value 0; multishot_handler = λ n. n }

abbrev handler : ℕ → ℕ
handler n = n + 100

-- Two sockets and an error in between, and then ECANCELED.
abbrev cancelled : AcceptRequest
cancelled = record {
  free = true;
  results = returned 20 ∷ (failed 24 ∷ (returned 21 ∷ []));
  last = failed 125;
}

abbrev busy : AcceptRequest
busy = record { free = false; results = []; last = returned 0 }

abbrev broken : AcceptRequest
broken = record { free = true; results = returned 22 ∷ []; last = failed 22 }

tasks-all : all_tasks 8 handler (busy ∷ (cancelled ∷ [])) ≡ 120 ∷ (121 ∷ (8 ∷ []))
unfolding handled
tasks-all = refl

async_accept-tasks_example :
    (async_accept 8 handler data_of (busy ∷ (cancelled ∷ []))
      ≡ record { tasks = all_tasks 8 handler (busy ∷ (cancelled ∷ [])); threw = none })
    × (async_accept 8 handler data_of ((busy ∷ (cancelled ∷ [])) ++ (broken ∷ [])) ≡ record {
      tasks = all_tasks 8 handler (busy ∷ (cancelled ∷ [])) ++ tasks_of 8 handler broken;
      threw = some (errc 22);
    })
unfolding accepts_again
async_accept-tasks_example =
    async_accept-tasks 8 handler data_of (busy ∷ (cancelled ∷ [])) [] broken (errc 22)
      (refl, (refl, tt)) (refl, refl, refl)
