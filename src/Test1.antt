-- ===== src/Test1.antt =====
-- test1, a client of the driver that switches one X10 unit on (libcm11a/test1.c).
pub mod Client
pub mod Loop
pub mod Messages
pub mod Safety
pub mod Phases
pub mod Serving
pub mod Rounds
pub mod Busy
mod Tests
