-- ===== src/Async.antt =====
-- The schedulers and coroutines: include/async.
pub mod Pool
pub mod Tasks
pub mod Locks
pub mod WhenAll
pub mod Traits
pub mod Timers
pub mod Epoll
