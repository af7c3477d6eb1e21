-- ===== src/Pzem.antt =====
-- pzem, which reads and sets up a PZEM power meter (examples/readregs/pzem/pzem.c).
pub mod Meter
pub mod Options
pub mod Session
pub mod Energy
pub mod Balance
pub mod Requests
pub mod Arguments
mod Tests
