-- ===== src/Renogy.antt =====
-- renogy, which prints ten registers of a controller (examples/readregs/renogy.c).
pub mod Session
pub mod Scan
mod Tests
