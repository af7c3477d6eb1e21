-- ===== src/Influx/Monitor.antt =====
-- The three outer loops of the monitor, each inside the next: `main_modbus_loop`, `main_connect_loop`
-- and `main_modbus` of renogy_influx/renogy_influx.c.
pub mod Turns
pub mod Loops
pub mod Outcomes
pub mod Codes
pub mod Shutdown
pub mod Unreachable
pub mod Kept
pub mod Balance
