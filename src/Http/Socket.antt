-- ===== src/Http/Socket.antt =====
-- The errors of include/http/Socket.hpp, checkError of include/utils/ErrorHandle.hpp, and the calls
-- of reactorSocket. The operating system's answers are arguments.
use coro_iomultiplex.Prelude.{
  ℕ, Text, codes, Option, none, some, Expected, value, unexpected, ErrorCode, socket_error,
  generic_error,
}

-- enum class socketError.
pub data SocketError : Type 0 where
  success read_error write_error recv_error send_error eof_error closed_socket : SocketError

-- static_cast<int>.
abbrev pub socket_number : SocketError → ℕ
socket_number success = 0
socket_number read_error = 1
socket_number write_error = 2
socket_number recv_error = 3
socket_number send_error = 4
socket_number eof_error = 5
socket_number closed_socket = 6

-- socketErrorCategory::message.
abbrev pub socket_message : SocketError → Text
socket_message success = codes "Success"
socket_message read_error = codes "Read error"
socket_message write_error = codes "Write error"
socket_message recv_error = codes "Recv error"
socket_message send_error = codes "Send error"
socket_message eof_error = codes "EOF"
socket_message closed_socket = codes "Unknown error"

-- make_error_code(socketError).
abbrev pub socket_code : SocketError → ErrorCode
socket_code e = record { number = socket_number e; category = socket_error }

-- std::make_error_code(std::errc): the numbers of errno on Linux.
abbrev pub errc : ℕ → ErrorCode
errc n = record { number = n; category = generic_error }

-- EAGAIN, which on Linux is EWOULDBLOCK too; ECONNRESET, ENODATA and ECANCELED.
abbrev pub try_again : ErrorCode
try_again = errc 11

abbrev pub would_block : ErrorCode
would_block = errc 11

abbrev pub connection_reset : ErrorCode
connection_reset = errc 104

abbrev pub no_message_available : ErrorCode
no_message_available = errc 61

abbrev pub operation_canceled : ErrorCode
operation_canceled = errc 125

-- What a system call gives: a result that is not negative, or -1 with an errno.
pub data Answer (A : Type 0) : Type 0 where
  returned : A → Answer A
  failed : ℕ → Answer A

-- checkError.
abbrev pub check_error : {A : Type 0} → Answer A → Expected A
check_error (returned a) = value a
check_error (failed errno) = unexpected (errc errno)

-- The common shape of reactorSocket's read, write, recv, send and sendfile; `none` is fd < 0.
abbrev pub socket_call : {A : Type 0} → SocketError → Option ℕ → Answer A → Expected A
socket_call e none answer = unexpected (socket_code e)
socket_call e (some fd) answer = check_error answer

abbrev pub read : Option ℕ → Answer Text → Expected Text
read fd = socket_call read_error fd

abbrev pub write : Option ℕ → Answer ℕ → Expected ℕ
write fd = socket_call write_error fd

abbrev pub recv : Option ℕ → Answer Text → Expected Text
recv fd = socket_call recv_error fd

abbrev pub send : Option ℕ → Answer ℕ → Expected ℕ
send fd = socket_call send_error fd

abbrev pub sendfile : Option ℕ → Answer ℕ → Expected ℕ
sendfile fd = socket_call send_error fd
