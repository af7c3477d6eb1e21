-- ===== src/Tty.antt =====
-- tty_reader, which publishes what it reads from Modbus devices, and its subscribers (tty_reader/*.zig).
pub mod Parse
pub mod Publisher
pub mod Subscriber
pub mod Frame
pub mod Calls
pub mod Stream
pub mod Published
pub mod Charger
pub mod After
pub mod InTurn
pub mod Sessions
pub mod SwitchedOff
pub mod Devices
pub mod Ranges
pub mod Pass
pub mod Peers
pub mod Requests
pub mod Times
pub mod Spacing
pub mod Loop
pub mod Removal
pub mod Polling
pub mod Rounds
pub mod Turns
pub mod Prompt
pub mod Queue
pub mod Battery
pub mod Kept
pub mod Steady
pub mod Relay
mod Tests
