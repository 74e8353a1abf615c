-- ===== src/Server/Runs.antt =====
-- A responseHandler of demo/uringhttp.cpp as one run: the head, and the file behind it.
use coro_iomultiplex.Prelude.{
  ℕ, ◌≡◌, refl, sym, ap, ◌∙◌, Text, List, [], ◌++◌, Option, none, some, Expected, arith,
}
use mathlib.Core.List.{append-nil}
use coro_iomultiplex.Server.{Sent, done, gone, still, send_loop}
use coro_iomultiplex.Server.Sends.{delivered, repeated, delivered-repeated}

-- How the send loops end one after the other, and what the client gets; `bodies` is what the sends
-- of the file give, and `content` what is in it.
pub record Responded : Type 0 where
  pub ends : Sent
  pub bytes : Text

-- The loop that sends the file, if there is one, behind what was sent.
unfoldable pub send_file : Text → Option Text → List (Expected ℕ) → Responded
send_file sent none bodies = record { ends = done; bytes = sent }
send_file sent (some content) bodies = record {
  ends = send_loop content bodies;
  bytes = sent ++ delivered content bodies;
}

-- responseHandler behind its look-up of the file.
unfoldable pub send_response :
    Text → Option Text → List (Expected ℕ) → List (Expected ℕ) → Responded
unfolding send_file
send_response head file heads bodies = elim (send_loop head heads) [
  | done ↦ send_file (delivered head heads) file bodies
  | gone ↦ record { ends = gone; bytes = delivered head heads }
  | still ↦ record { ends = still; bytes = delivered head heads }
]

-- The file, behind every part of it that an earlier send took.
unfoldable pub repeated_file : Option Text → List (Expected ℕ) → Text
repeated_file none bodies = []
repeated_file (some content) bodies = repeated content bodies ++ content

send_file-done :
    (sent : Text) (file : Option Text) (bodies : List (Expected ℕ))
    → (send_file sent file bodies).ends ≡ done
    → (send_file sent file bodies).bytes ≡ sent ++ repeated_file file bodies
unfolding send_file repeated_file
send_file-done sent none bodies h = sym (append-nil sent)
send_file-done sent (some content) bodies h =
    ap (λ t. sent ++ t) (delivered-repeated content bodies h)

-- A responseHandler that ends with everything sent gave the client the head, whole, behind every part
-- of it that an earlier send took, and then, if there is a file, the file in the same way.
pub send_response-done :
    (head : Text) (file : Option Text) (heads bodies : List (Expected ℕ))
    → (send_response head file heads bodies).ends ≡ done
    → (send_response head file heads bodies).bytes
      ≡ (repeated head heads ++ head) ++ repeated_file file bodies
unfolding send_response
send_response-done head file heads bodies h =
    elim (send_loop head heads)
        as (λ s.
          send_loop head heads ≡ s
          → (elim s as (λ x. Responded) [
            | done ↦ send_file (delivered head heads) file bodies
            | gone ↦ record { ends = gone; bytes = delivered head heads }
            | still ↦ record { ends = still; bytes = delivered head heads }
          ]).ends
            ≡ done
          → (elim s as (λ x. Responded) [
            | done ↦ send_file (delivered head heads) file bodies
            | gone ↦ record { ends = gone; bytes = delivered head heads }
            | still ↦ record { ends = still; bytes = delivered head heads }
          ]).bytes
            ≡ (repeated head heads ++ head) ++ repeated_file file bodies) [
              | done ↦ λ e k.
                  send_file-done (delivered head heads) file bodies k
                  ∙ ap (λ t. t ++ repeated_file file bodies) (delivered-repeated head heads e)
              | gone ↦ λ e k. absurd (ground arith)
              | still ↦ λ e k. absurd (ground arith)
            ]
      refl h
