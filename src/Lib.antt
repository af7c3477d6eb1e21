-- ===== src/Lib.antt =====
-- The programs of this repository, which watch a solar battery through the registers of its Renogy
-- controller and switch X10 modules.
--
-- The parts, and the files that model them:
--
-- - Base: shared names, lists, the C `int` (Base/Int), byte strings and `printf` (Base/Text), `select`
--   (Base/Select), and code that changes a state (Base/Effects).
-- - Cm11a: libcm11a/libcm11a.c and libcm11a/libcm11a.h, the driver of the CM11A controller.
--   Device: `struct libcm11a_t` and what the library calls, the record `Host`. Port: `libcm11a_create`
--   and `libcm11a_destroy`. Write: `libcm11a_write_data_crc` and `libcm11a_write_data`. Wait:
--   `fd_can_read`, `fd_can_write`, `libcm11a_get_wait_objs_rw` and `libcm11a_check_wait_objs`.
--   Serving and Served: the rule by which a property of the state outlasts a service of the port.
--   The functions of the application, which the library calls through pointers of the struct and which
--   call the library again, are named by the type `App`, and what they do is the argument `call`.
-- - Influx.Log: renogy_influx/renogy_influx_log.c, the clock and the log.
-- - Influx.Request, Influx.Transfer, Influx.Monitor, Influx.Main: renogy_influx/renogy_influx.c.
--   Request: the text that is posted. Transfer: `main_send_recv_loop`, which sends it and judges the
--   answer. Monitor: `main_modbus_loop` inside `main_connect_loop` inside `main_modbus`. Main: the
--   command line, the signal handlers, `main_fgbg`, `main_settings` and `main`. Env: the globals and
--   the buffers. System: the calls of the operating system and of libmodbus, as a record.
-- - Test1: libcm11a/test1.c, a client that switches one X10 unit on. Client: its callbacks, `main_loop`
--   and `main`, over Cm11a with the system's `App` replaced by the six callbacks. Loop: the rule by which
--   a property outlasts its loop.
-- - Modbus: what the programs of examples/readregs ask of libmodbus, the record `Bus` (Calls), with the
--   laws that their theorems use: what leaves the bus alone (Unseen), the contexts in use (Live), and the
--   requests made (Trace).
-- - Pzem: examples/readregs/pzem/pzem.c. Meter: the decoding of the registers and the printed lines as
--   values. Options: the command line. Session: the set up, the commands, the
--   loop of readings and `main`.
-- - Renogy: examples/readregs/renogy.c. Session: the set up, the reads and `main`.
-- - X10: examples/x10_cm11/x10_cm11.c, which speaks to the CM11A without the driver. Loop: the
--   handshakes, `main_loop` and `main`, over the record `Host` of Cm11a. Dump: the text that
--   `hexdump` prints, and a reader of such a text.
-- - Tty: tty_reader/tty_reader.zig, which publishes registers, and its subscribers. Parse: what they
--   use of the module `parse` of the submodule tty_reader/common. Publisher: the messages of
--   `process_tty_id_info`. Subscriber: `process_csck_in` of tty_reader/tty_reader_heyu.zig, the same
--   in tty_reader/tty_reader_influx.zig, and the calls of it by which a stream is read, as many as the
--   stream has bytes. Frame, Calls, Stream and Published lead from a piece of a message to the whole
--   stream. Peers: the queue of messages of a peer, which `process_tty_id_info` fills and
--   `check_peers` sends; Queue is about what the peer gets. Devices: `get_next_id_info`; Ranges and
--   Pass are about it. Requests: `process_tty_id_info` and `check_modbus`; Times, Spacing, Turns and
--   Prompt are about them. Loop: `check_peers` and `tty_main_loop`; Removal, Polling and Rounds are
--   about them. Charger: `process_msg` and `main_loop` of tty_reader/tty_reader_heyu.zig; Steady, InTurn
--   and Battery are about it. Sessions: the connections that its `main` makes one after the other;
--   SwitchedOff is about them. Relay: tty_reader/tty_reader_influx.zig. Relay/Points: its
--   `process_msg_table` and `process_msg`; Tables, Posted, LongTag and Relayed are about them.
--   Relay/Server: `connect_isck`, what is sent to the server and read from it, and `main_loop`;
--   Streams, Queued, Sockets and Connections are about it. The calls of the system and the printing of
--   an `f32` are the record Net of Relay/Settings.
--
-- How the state corresponds: a function that changes the struct or the globals takes the state and
-- returns it with its result, and a call of the outside takes and returns its world. In Cm11a `none`
-- stands for a null pointer that is written or read through; in Influx it stands for a loop that has
-- used up the turns that it was given; in Test1 for either.
-- In X10 it stands for a handshake that has used up its attempts, of which the code has no bound. In Tty
-- it stands for an error that ends the program or for an overflow, in `serve` for calls used up, and in
-- `main_sessions` for a program that still runs. An error that ends the rounds of Charger is `stopped`,
-- with the state it leaves behind, since `main` switches the charger off by it.
--
-- Turns: `main_send_recv_loop` is given 3072, which is more than the 2047 bytes of the request and the
-- 1023 of the answer, of which each turn but the last moves one. The outer loops run until something
-- stops them, so their turns are arguments, and what is stated of them holds for every number.
--
-- Numbers: an `int` that can wrap (the clock, the deadline, the wait) is an integer with its wrap to 32
-- bits written out. Counts and sizes are natural numbers. `x & 0xFF` is the remainder by 256.
--
-- Text: strings are lists of bytes without the NUL at the end; `buffer_in` is the list of the bytes
-- received. The prefix of a message in the log holds the file's name as it stands in the directory.
--
-- Not modelled: the formatting of a log message by `vsnprintf` (the callers form the text), the Modbus
-- set up of the line (`RENOGY_SERIAL_INFO`), what test1 prints, the messages of pzem and renogy other
-- than their readings, the messages of x10_cm11 other than its dump, of the programs in tty_reader
-- their settings and command lines and what they set up before their loops, and tty_reader/toml.c,
-- which is a copy of another project.
pub mod Base
pub mod Cm11a
pub mod Influx
pub mod Test1
pub mod Tty
pub mod Modbus
pub mod Pzem
pub mod Renogy
pub mod X10
