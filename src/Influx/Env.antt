-- ===== src/Influx/Env.antt =====
-- The state of the running monitor and its error codes (renogy_influx/renogy_influx.c), and writing to
-- the log with the prefix that LOGS and LOGP give (renogy_influx/renogy_influx_log.h).
use renogy_x.Base.{ℕ}
use renogy_x.Base.{List, ◌++◌}
use renogy_x.Base.{ℤ}
use renogy_x.Base.{codes, decimal}
use renogy_x.Influx.System.{System}
use renogy_x.Influx.Log.{Log, logln}

-- `ERROR_NONE` to `ERROR_SHUTDOWN`
pub data ErrorCode : Type 0 where
  error_none error_fatal error_connect error_modbus error_shutdown : ErrorCode

unfoldable pub exit_code : ErrorCode → ℕ
exit_code error_none = 0
exit_code error_fatal = 1
exit_code error_connect = 2
exit_code error_modbus = 3
exit_code error_shutdown = 4

-- `struct buffers_t`. Of `buffer_in`, which is cleared before each use, the bytes received so far.
pub record Buffers : Type 0 where
  pub buffer_out : List ℕ
  pub buffer_con : List ℕ
  pub buffer_in : List ℕ
  pub influx_ip : List ℕ

-- The globals (both ends of `g_term_pipe`, and the log), the buffers, and the outside world.
pub record Env (World : Type 0) : Type 0 where
  pub term_pipe : ℤ
  pub term_pipe_out : ℤ
  pub log : Log
  pub buffers : Buffers
  pub world : World

-- "[%s][%d][%s]:" with the file, the line and the function, before the text.
abbrev pub located : ℕ → List ℕ → List ℕ → List ℕ
located line function text =
    codes "[renogy_influx.c]["
    ++ (decimal line ++ (codes "][" ++ (function ++ (codes "]:" ++ text))))

module _ (S : System) where
  abbrev pub Monitor : Type 0
  Monitor = Env S.World

  -- `LOGLN0`; what `logln` returns is dropped.
  unfoldable pub logln0 : ℕ → ℕ → List ℕ → List ℕ → Monitor → Monitor
  logln0 log_level line function text s = record s {
    world = (logln S log_level (located line function text) s.log s.world).1;
  }
