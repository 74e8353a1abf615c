-- ===== src/Http/Receive/Pieces.antt =====
-- A call of readRequest of src/http/Http.cpp that is given some pieces, and then that there is
-- nothing more.
use coro_iomultiplex.Prelude.{
  ℕ, ◌≤◌, ◌≡◌, ◌≢◌, refl, sym, ap, ◌∙◌, subst, Text, ends_with, length, length-append, joined, All,
  List, [], ◌∷◌, ◌++◌, some, true, false, ℕ_discrete, store, forget, entry-store_self,
  entry-forget_self, value, arith,
}
use mathlib.Core.List.{append_assoc, append-nil}
use coro_iomultiplex.Http.Socket.{Answer, failed, try_again}
use coro_iomultiplex.Http.Receive.{
  Buffers, blank_line, max_request, get_buffer, erase_buffer, read_more, read_failed, read_loop,
  read_request,
}
use coro_iomultiplex.Http.Receive.Resume.{reads, paused, get_buffer-entered, get_buffer-held}

-- The reads of a call: the pieces, and then there is nothing more.
abbrev pub call_of : List Text → List (Answer Text)
call_of pieces = reads pieces ++ (failed 11 ∷ [])

-- No piece is empty.
abbrev pub AreGiven : List Text → Type 0
AreGiven pieces = All (λ s. s ≢ []) pieces

read_more_piece :
    (message : Text) (c : ℕ) (s : Text)
    → length (message ++ (c ∷ s)) ≤ max_request
    → read_more message (value (c ∷ s)) ≡ value (message ++ (c ∷ s))
unfolding read_more
read_more_piece message c s fits = ground (arith, length-append message (c ∷ s))

-- The pieces are all taken in.
read_loop_pieces :
    (fd : ℕ) (b : Buffers) (message : Text) (pieces : List Text)
    → b.entry fd ≡ some message
    → AreGiven pieces
    → length (message ++ joined pieces) ≤ max_request
    → (b' : Buffers) × (b'.entry fd ≡ some (message ++ joined pieces))
      × (read_loop fd b message (call_of pieces)
          ≡ some (read_failed b' fd (message ++ joined pieces) try_again))
unfolding read_loop read_more
read_loop_pieces fd b message [] at given fits =
    let same = sym (append-nil message) in
    (b, at ∙ ap some same, ap (λ t. some (read_failed b fd t try_again)) same)
read_loop_pieces fd b message ([] ∷ pieces) at given fits = absurd (given.0 refl)
read_loop_pieces fd b message ((c ∷ s) ∷ pieces) at given fits =
    let assoc = append_assoc message (c ∷ s) (joined pieces) in
    let (b', at', e) =
      read_loop_pieces fd (store ℕ_discrete fd (message ++ (c ∷ s)) b) (message ++ (c ∷ s)) pieces
        (entry-store_self ℕ_discrete fd (message ++ (c ∷ s)) b) given.1
        (subst (λ t. length t ≤ max_request) (sym assoc) fits) in
    let room : length (message ++ (c ∷ s)) ≤ max_request = omega (
      arith,
      length-append message (c ∷ (s ++ joined pieces)),
      length-append message (c ∷ s),
      length-append s (joined pieces),
    ) in
    (
      b',
      at' ∙ ap some assoc,
      rw (read_more_piece message c s room, read_loop)
          (e ∙ ap (λ t. some (read_failed b' fd t try_again)) assoc),
    )

read_request_pieces :
    (b : Buffers) (fd : ℕ) (message : Text) (pieces : List Text)
    → (get_buffer b fd).1 ≡ message
    → AreGiven pieces
    → length (message ++ joined pieces) ≤ max_request
    → (b' : Buffers) × (b'.entry fd ≡ some (message ++ joined pieces))
      × (read_request b fd (call_of pieces)
          ≡ some (read_failed b' fd (message ++ joined pieces) try_again))
unfolding read_request
read_request_pieces b fd message pieces at given fits =
    let (b', at', e) =
      read_loop_pieces fd (get_buffer b fd).0 message pieces (get_buffer-entered b fd ∙ ap some at)
        given fits in
    (b', at', ap (λ t. read_loop fd (get_buffer b fd).0 t (call_of pieces)) at ∙ e)

-- Without a blank line at the end, the text is kept for the next call.
pub read_request_part :
    (b : Buffers) (fd : ℕ) (message : Text) (pieces : List Text)
    → (get_buffer b fd).1 ≡ message
    → AreGiven pieces
    → length (message ++ joined pieces) ≤ max_request
    → ends_with blank_line (message ++ joined pieces) ≡ false
    → (b' : Buffers) × ((get_buffer b' fd).1 ≡ message ++ joined pieces)
      × (read_request b fd (call_of pieces) ≡ some (paused b'))
unfolding read_failed
read_request_part b fd message pieces at given fits more =
    let (b', at', e) = read_request_pieces b fd message pieces at given fits in
    (
      b',
      ap (λ g. g.1) (get_buffer-held b' fd (message ++ joined pieces) at'),
      e ∙ ground (arith, more),
    )

-- With a blank line at the end, the text is returned, and nothing is kept.
pub read_request_whole :
    (b : Buffers) (fd : ℕ) (message : Text) (pieces : List Text)
    → (get_buffer b fd).1 ≡ message
    → AreGiven pieces
    → length (message ++ joined pieces) ≤ max_request
    → ends_with blank_line (message ++ joined pieces) ≡ true
    → (b' : Buffers) × ((get_buffer b' fd).1 ≡ [])
      × (read_request b fd (call_of pieces)
          ≡ some (record { buffers = b'; result = value (message ++ joined pieces) }))
unfolding read_failed erase_buffer get_buffer
read_request_whole b fd message pieces at given fits whole =
    let (b', at', e) = read_request_pieces b fd message pieces at given fits in
    (
      forget ℕ_discrete fd b',
      rw (entry-forget_self ℕ_discrete fd b', get_buffer) refl,
      e ∙ ground (arith, whole),
    )
