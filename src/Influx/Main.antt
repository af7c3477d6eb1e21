-- ===== src/Influx/Main.antt =====
-- The command line, the signals and the start of the monitor (renogy_influx/renogy_influx.c, `sig_int`,
-- `process_args` and from `main_fgbg` to `main`).
pub mod Args
pub mod Start
pub mod Status
