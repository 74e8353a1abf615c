-- ===== src/Http.antt =====
-- The HTTP part: include/http/Http.hpp and src/http/Http.cpp.
pub mod Status
pub mod Request
pub mod Paths
pub mod Socket
pub mod Accept
pub mod Receive
pub mod Response
