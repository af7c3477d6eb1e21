-- ===== src/Influx/Transfer.antt =====
-- Sending the request and receiving the answer: `main_send_recv_loop` of
-- renogy_influx/renogy_influx.c.
pub mod Loop
pub mod Counters
pub mod Ends
pub mod Resources
pub mod Interrupted
