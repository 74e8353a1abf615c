-- ===== src/Echo/Tests.antt =====
-- The echo server of demo/epolltest.cpp on concrete reads and sends.
use coro_iomultiplex.Prelude.{
  ℕ, ◌≡◌, ◌≢◌, refl, arith, codes, Text, List, [], ◌∷◌, ◌++◌, Expected, value, unexpected, joined,
}
use coro_iomultiplex.Http.Socket.{try_again, would_block}
use coro_iomultiplex.Echo.{is_busy, finished, write_loop, writer, take_in, echo_handle}
use coro_iomultiplex.Echo.Writer.{delivered, writer-ne_finished}
use coro_iomultiplex.Echo.Conserves.{received, joined-echo_handle}

program : Unit {0}
unfolding write_loop is_busy delivered echo_handle take_in received
program = tt

-- Nothing is taken at first; then the whole buffer is.
abbrev sends : List (Expected ℕ)
sends = value 0 ∷ (unexpected try_again ∷ (value 5 ∷ []))

sends-finished : writer (codes "hello") sends ≡ finished
unfolding program
sends-finished = refl

-- The first send takes three bytes, and the client gets the buffer again from its start.
abbrev partial_sends : List (Expected ℕ)
partial_sends = value 3 ∷ (value 2 ∷ (value 0 ∷ []))

partial-delivered : delivered (codes "hello") partial_sends ≡ codes "helhe"
unfolding program
partial-delivered = refl

writer-ne_finished_example : writer (codes "hello") partial_sends ≢ finished
writer-ne_finished_example =
    writer-ne_finished (codes "hello") 3 (value 2 ∷ (value 0 ∷ [])) (omega arith) (omega arith)
      (omega arith) (omega arith)

abbrev reads : List (Expected Text)
reads =
    value (codes "ab")
    ∷ (value (codes "c")
        ∷ (unexpected try_again ∷ (value (codes "d") ∷ (unexpected would_block ∷ (value [] ∷ [])))))

reads-writers : (echo_handle [] reads).writers ≡ codes "abc" ∷ (codes "d" ∷ ([] ∷ []))
unfolding program
reads-writers = refl

joined-echo_handle_example :
    joined (echo_handle [] reads).writers ++ (echo_handle [] reads).held ≡ [] ++ received reads
joined-echo_handle_example = joined-echo_handle [] reads (refl, (refl, tt))
