-- ===== src/Http/Accept/Tests.antt =====
-- acceptAll of include/http/Socket.hpp on concrete answers.
use coro_iomultiplex.Prelude.{ℕ, ◌+◌, ◌≡◌, refl, List, [], ◌∷◌, ◌++◌, map, ErrorCode, system_error}
use coro_iomultiplex.Http.Socket.{returned, failed}
use coro_iomultiplex.Http.Accept.{accept_waits, waiting, threw, AcceptRound, accept_all}
use coro_iomultiplex.Http.Accept.Registered.{with_task, sockets, accept_all-registered}

abbrev accepts : ℕ → AcceptRound
accepts fd = record { accepted = returned fd; made = returned tt; added = returned tt }

abbrev fails : ℕ → AcceptRound
fails errno = record { accepted = failed errno; made = returned tt; added = returned tt }

abbrev before : List AcceptRound
before = accepts 7 ∷ (fails 11 ∷ (accepts 9 ∷ (fails 24 ∷ [])))

-- ECONNABORTED.
abbrev aborted : ErrorCode
aborted = record { number = 103; category = system_error }

abbrev handler : ℕ → ℕ
handler fd = fd + 100

accept_all-registered_example :
    (accept_all handler before
      ≡ record { registered = map (with_task handler) (sockets before); ends = waiting })
    × (accept_all handler (before ++ (fails 103 ∷ []))
        ≡ record { registered = map (with_task handler) (sockets before); ends = threw aborted })
unfolding accept_waits
accept_all-registered_example =
    accept_all-registered handler before [] (fails 103) aborted (tt, (refl, (tt, (refl, tt))))
      (103, refl, refl, refl)
