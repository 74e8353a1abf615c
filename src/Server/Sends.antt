-- ===== src/Server/Sends.antt =====
-- What the client gets from a send loop of responseHandler in demo/uringhttp.cpp.
use coro_iomultiplex.Prelude.{
  ℕ, ◌≡◌, refl, sym, ap, ◌∙◌, ltb, Text, length, take, take_of_length-le, List, [], ◌∷◌, ◌++◌, true,
  false, if◌then◌else◌, Expected, value, unexpected, arith,
}
use mathlib.Core.List.{append_assoc}
use coro_iomultiplex.Server.{is_busy, Sent, done, gone, send_loop}

-- What the client gets from the loop: of each send's text, the part that was sent.
unfoldable pub delivered : Text → List (Expected ℕ) → Text
unfolding is_busy
delivered text [] = []
delivered text (unexpected e ∷ answers) =
    let rest = delivered text answers in if is_busy e then rest else []
delivered text (value n ∷ answers) =
    let rest = delivered text answers in
    if ltb n (length text) then take n text ++ rest else take n text

-- What the client gets before the last send: of each send but the last, the part that was sent.
unfoldable pub repeated : Text → List (Expected ℕ) → Text
repeated text [] = []
repeated text (unexpected e ∷ answers) = repeated text answers
repeated text (value n ∷ answers) =
    let rest = repeated text answers in if ltb n (length text) then take n text ++ rest else []

-- A send loop that is done gave the client the whole text, behind every part that an earlier send
-- took.
pub delivered-repeated :
    (text : Text) (answers : List (Expected ℕ))
    → send_loop text answers ≡ done
    → delivered text answers ≡ repeated text answers ++ text
unfolding send_loop delivered repeated
delivered-repeated text [] h = absurd (ground arith)
delivered-repeated text (unexpected e ∷ answers) h =
    elim (is_busy e)
        as (λ b.
          ◌≡◌ {A = Sent} (if b then send_loop text answers else gone) done
          → (if b then delivered text answers else []) ≡ repeated text answers ++ text) [
            | true ↦ λ k. delivered-repeated text answers k
            | false ↦ λ k. absurd (ground arith)
          ]
      h
delivered-repeated text (value n ∷ answers) h =
    elim (ltb n (length text))
        as (λ b.
          ltb n (length text) ≡ b
          → ◌≡◌ {A = Sent} (if b then send_loop text answers else done) done
          → (if b then take n text ++ delivered text answers else take n text)
            ≡ (if b then take n text ++ repeated text answers else []) ++ text) [
              | true ↦ λ e k.
                  ap (λ t. take n text ++ t) (delivered-repeated text answers k)
                  ∙ sym (append_assoc (take n text) (repeated text answers) text)
              | false ↦ λ e k. take_of_length-le n text (ground arith)
            ]
      refl h
