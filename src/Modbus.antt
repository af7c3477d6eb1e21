-- ===== src/Modbus.antt =====
-- The interface between the programs of examples/readregs and libmodbus.
pub mod Calls
pub mod Unseen
pub mod Live
pub mod Trace
