-- ===== src/Cm11a.antt =====
-- libcm11a: the driver of the CM11A controller on a serial port (libcm11a/libcm11a.c, libcm11a.h).
pub mod Device
pub mod Port
pub mod Write
pub mod Wait
pub mod Serving
pub mod Served
pub mod Invariant
pub mod Checksum
pub mod Wire
mod Tests
