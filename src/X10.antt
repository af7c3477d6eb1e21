-- ===== src/X10.antt =====
-- x10_cm11, which speaks to the CM11A controller without the driver (examples/x10_cm11/x10_cm11.c).
pub mod Loop
pub mod Handshake
pub mod Dump
mod Tests
