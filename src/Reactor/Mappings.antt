-- ===== src/Reactor/Mappings.antt =====
-- The mappings that responseHandler of demo/httptest.cpp leaves.
use coro_iomultiplex.Prelude.{
  ℕ, ◌+◌, ◌<◌, ◌≡◌, refl, length, All, List, [], ◌∷◌, ◌++◌, true, Expected, value, unexpected,
  arith,
}
use coro_iomultiplex.Reactor.{is_busy, send_body}

-- A send that takes a part of the file only, or is tried again.
abbrev pub Stalls : ℕ → Expected ℕ → Type 0
Stalls size (value n) = n < size
Stalls size (unexpected e) = is_busy e ≡ true

-- Each send of the file that is tried again or takes a part of it leaves a mapping of the file for
-- good, and the loop goes on as if it had not been.
pub send_body-Stalls :
    (size : ℕ) (before answers : List (Expected ℕ))
    → All (Stalls size) before
    → ((send_body size (before ++ answers)).mappings
        ≡ length before + (send_body size answers).mappings)
      × ((send_body size (before ++ answers)).ends ≡ (send_body size answers).ends)
unfolding send_body
send_body-Stalls size [] answers stalls = (omega arith, refl)
send_body-Stalls size (value n ∷ before) answers stalls =
    let (m, e) = send_body-Stalls size before answers stalls.1 in ground arith
send_body-Stalls size (unexpected e ∷ before) answers stalls =
    let (m, e') = send_body-Stalls size before answers stalls.1 in ground arith
