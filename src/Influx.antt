-- ===== src/Influx.antt =====
-- The monitor that reads the battery's voltage and posts it to the database (renogy_influx/).
pub mod System
pub mod Log
pub mod Env
pub mod Held
pub mod Request
pub mod Transfer
pub mod Monitor
pub mod Main
pub mod Clock
mod Tests
