-- ===== src/Tty/Relay.antt =====
-- tty_reader/tty_reader_influx.zig, which posts what is published to a server.
pub mod Settings
pub mod Points
pub mod Posted
pub mod Tables
pub mod Server
pub mod Streams
pub mod Queued
pub mod Sockets
pub mod Connections
pub mod LongTag
pub mod Relayed
