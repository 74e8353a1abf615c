-- ===== src/Reactor/Errors.antt =====
-- The errors that httpHandle and responseHandler of demo/httptest.cpp meet.
use coro_iomultiplex.Prelude.{
  Option, none, some, ℕ, ◌≡◌, ◌≢◌, refl, ap, All, List, [], ◌∷◌, map, false, ◌||◌, unexpected,
  ErrorCode, same_error, arith,
}
use coro_iomultiplex.Http.Status.{make_error_code, uncompleted_request}
use coro_iomultiplex.Http.Socket.{
  socket_code, eof_error, connection_reset, Answer, returned, failed,
}
use coro_iomultiplex.Files.{RegularFile, open_file}
use coro_iomultiplex.Files.Throws.{try_open}
use coro_iomultiplex.Reactor.{
  waiting, open_loop, reading, broken, internal_error, http_handle, begun,
}

-- An error that httpHandle neither ends for nor waits for.
abbrev pub IsHard : ErrorCode → Type 0
IsHard e =
    (same_error e (socket_code eof_error) || same_error e connection_reset ≡ false)
    × (same_error e (make_error_code uncompleted_request) ≡ false)

reading-IsHard : (e : ErrorCode) → IsHard e → reading (unexpected e) ≡ broken
unfolding reading
reading-IsHard e h = ground arith

-- A failure of the socket that stays makes httpHandle spin: for each of the errors that it meets
-- it starts one more responder for a status of INTERNAL_SERVER_ERROR, and it does not return.
pub http_handle_hard :
    (errors : List ErrorCode)
    → All IsHard errors
    → http_handle (map unexpected errors)
      ≡ record { requests = map (λ e. internal_error) errors; ended = false; unread = false }
unfolding http_handle
http_handle_hard [] hard = refl
http_handle_hard (e ∷ errors) hard =
    rw (reading-IsHard e hard.0, http_handle)
      (ap (begun internal_error) (http_handle_hard errors hard.1))

-- The loop that opens the file ends with its first answer, whatever that is: no failure of open is
-- tried again, for the errors that it would be tried again for are of another category.
pub open_loop_once :
    (f : RegularFile) (answer : Answer ℕ) (size : Option ℕ) (answers : List (Answer ℕ × Option ℕ))
    → open_loop f ((answer, size) ∷ answers) ≡ open_loop f ((answer, size) ∷ [])
      × (open_loop f ((answer, size) ∷ answers) ≢ waiting)
unfolding open_loop try_open open_file
open_loop_once f (returned fd) none answers = (refl, λ h. absurd (ground arith))
open_loop_once f (returned fd) (some size) answers = (refl, λ h. absurd (ground arith))
open_loop_once f (failed errno) size answers = (refl, λ h. absurd (ground arith))
