-- ===== src/Echo/Writer.antt =====
-- What writer of demo/epolltest.cpp sends.
use coro_iomultiplex.Prelude.{
  size_sub-eq, ℕ, zero, suc, ◌-◌, ◌^◌, ◌≤◌, ◌<◌, ◌≡◌, ◌≢◌, ◌∙◌, subst, leb, Text, length, take,
  take_of_length-le, List, [], ◌∷◌, ◌++◌, if◌then◌else◌, Expected, value, unexpected, arith,
  Bool-cases, inl, inr,
}
use coro_iomultiplex.Echo.{is_busy, finished, write_loop, writer}

-- A send takes at most what it is asked to.
abbrev pub AreSends : ℕ → List (Expected ℕ) → Type 0
AreSends size [] = Unit
AreSends size (unexpected e ∷ answers) = AreSends size answers
AreSends size (value n ∷ answers) = (n ≤ size) × AreSends (size - n) answers

-- The bytes that the client gets: each send begins with the first byte of the buffer.
unfoldable pub delivered : Text → List (Expected ℕ) → Text
unfolding is_busy
delivered buffer [] = []
delivered buffer (unexpected e ∷ answers) =
    let rest = delivered buffer answers in if is_busy e then rest else []
delivered buffer (value n ∷ answers) =
    let rest = delivered buffer answers in
    if leb (length buffer) n then take n buffer else take n buffer ++ rest

write_loop-ne_finished :
    (buffer : Text) (size : ℕ) (answers : List (Expected ℕ))
    → size < length buffer
    → length buffer < 2 ^ 64
    → AreSends size answers
    → write_loop buffer size answers ≢ finished
unfolding write_loop
write_loop-ne_finished buffer size [] lt fits sends h = ground arith
write_loop-ne_finished buffer size (unexpected e ∷ answers) lt fits sends h =
    ground (arith, write_loop-ne_finished buffer size answers lt fits sends)
write_loop-ne_finished buffer size (value n ∷ answers) lt fits sends h =
    let less = size_sub-eq size n sends.0 (omega arith) in
    let never = write_loop-ne_finished buffer (size - n) answers (omega arith) fits sends.1 in
    never (subst (λ k. write_loop buffer k answers ≡ finished) less (ground arith))

-- A writer whose first send takes a part of the buffer, and not all of it, never finishes.
pub writer-ne_finished :
    (buffer : Text) (n : ℕ) (answers : List (Expected ℕ))
    → 0 < n
    → n < length buffer
    → length buffer < 2 ^ 64
    → AreSends (length buffer) (value n ∷ answers)
    → writer buffer (value n ∷ answers) ≢ finished
unfolding write_loop
writer-ne_finished buffer n answers pos lt fits sends h =
    let less = size_sub-eq (length buffer) n sends.0 fits in
    let never =
      write_loop-ne_finished buffer (length buffer - n) answers (omega arith) fits sends.1 in
    never (subst (λ k. write_loop buffer k answers ≡ finished) less (ground arith))

-- A writer that finishes gave the client the buffer, whole and once.
pub delivered-writer :
    (buffer : Text) (answers : List (Expected ℕ))
    → length buffer < 2 ^ 64
    → AreSends (length buffer) answers
    → writer buffer answers ≡ finished
    → delivered buffer answers ≡ buffer
unfolding write_loop delivered
delivered-writer buffer [] fits sends h = absurd (ground arith)
delivered-writer buffer (unexpected e ∷ answers) fits sends h =
    ground (arith, delivered-writer buffer answers fits sends)
delivered-writer buffer (value zero ∷ answers) fits sends h =
    elim (Bool-cases (leb (length buffer) 0)) [
      | inl all ↦ rw all (take_of_length-le 0 buffer (ground arith))
      | inr more ↦
          let whole : length buffer - 0 ≡ length buffer = omega arith in
          let less = size_sub-eq (length buffer) 0 sends.0 fits ∙ whole in
          let rest : write_loop buffer (length buffer) answers ≡ finished =
            subst (λ k. write_loop buffer k answers ≡ finished) less (ground arith) in
          let sends' = subst (λ k. AreSends k answers) whole sends.1 in
          rw more (delivered-writer buffer answers fits sends' rest)
    ]
delivered-writer buffer (value (suc n) ∷ answers) fits sends h =
    elim (Bool-cases (leb (length buffer) (suc n))) [
      | inl all ↦ rw all (take_of_length-le (suc n) buffer (ground arith))
      | inr more ↦
          absurd
            (writer-ne_finished buffer (suc n) answers (omega arith) (ground arith) fits sends h)
    ]
