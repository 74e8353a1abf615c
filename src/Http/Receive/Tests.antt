-- ===== src/Http/Receive/Tests.antt =====
-- readRequest of src/http/Http.cpp on concrete reads.
use coro_iomultiplex.Prelude.{
  ℕ, zero, suc, ◌≡◌, refl, arith, codes, Text, some, ◌++◌, List, [], ◌∷◌, ends_with, text_eq,
  compare_text, length, empty_table, store, forget, ℕ_discrete, value,
}
use coro_iomultiplex.Http.Socket.{Answer, returned, failed}
use coro_iomultiplex.Http.Receive.{
  Buffers, Received, read_request, read_loop, read_more, read_failed, get_buffer, erase_buffer,
  blank_line,
}
use coro_iomultiplex.Http.Receive.Buffers.{IsBounded, IsKept, read_request-IsKept}
use coro_iomultiplex.Http.Receive.Resume.{reads, paused, read_request-resume}

program : Unit {0}
unfolding read_request read_loop read_more read_failed get_buffer erase_buffer ends_with text_eq
    compare_text store forget
program = tt

no_buffers : IsBounded empty_table
unfolding IsBounded
no_buffers fd s h = absurd (ground arith)

abbrev whole : List (Answer Text)
whole = returned (codes "GET" ++ blank_line) ∷ (failed 11 ∷ [])

abbrev received : Received
received = record {
  buffers =
      forget ℕ_discrete 5
        (store ℕ_discrete 5 (codes "GET" ++ blank_line) (store ℕ_discrete 5 [] empty_table));
  result = value (codes "GET" ++ blank_line);
}

receives : read_request empty_table 5 whole ≡ some received
unfolding program
receives = refl

read_request-IsKept_example : IsKept empty_table 5 received
read_request-IsKept_example = read_request-IsKept empty_table 5 whole received no_buffers receives

abbrev part : Buffers
part = store ℕ_discrete 5 (codes "GET") (store ℕ_discrete 5 [] empty_table)

pauses :
    read_request empty_table 5 (reads (codes "GET" ∷ []) ++ (failed 11 ∷ [])) ≡ some (paused part)
unfolding program
pauses = refl

read_request-resume_example :
    read_request part 5 (returned blank_line ∷ (failed 11 ∷ []))
    ≡ read_request empty_table 5
        (reads (codes "GET" ∷ []) ++ (returned blank_line ∷ (failed 11 ∷ [])))
read_request-resume_example =
    read_request-resume empty_table 5 (codes "GET" ∷ []) part
      (returned blank_line ∷ (failed 11 ∷ [])) pauses

-- Reads of one byte each.
abbrev bytes : ℕ → List (Answer Text)
bytes zero = []
bytes (suc n) = returned (97 ∷ []) ∷ bytes n

length-bytes : (n : ℕ) → length (bytes n) ≡ n
length-bytes zero = refl
length-bytes (suc n) = omega (arith, length-bytes n)
