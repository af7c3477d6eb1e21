-- ===== src/Influx/Monitor/Turns.antt =====
-- `main_modbus_loop` of renogy_influx/renogy_influx.c, and what it shares with the loops around it. Each
-- loop is a turn and its repetition, with the turns that are left; `none` where they are used up.
use renogy_x.Base.{ℕ, zero, suc, ◌*◌}
use renogy_x.Base.{if◌then◌else◌}
use renogy_x.Base.{Bool, true, false, Option, none, some, List, ◌∷◌}
use renogy_x.Base.{ℤ, pos, negsuc, ◌+ℤ◌, ◌==ℤ◌, wrap32}
use renogy_x.Base.{codes, decimal}
use renogy_x.Influx.System.{System}
use renogy_x.Influx.Log.{get_mstime, log_error, log_info}
use renogy_x.Influx.Env.{
  ErrorCode, error_none, error_fatal, error_connect, error_modbus, error_shutdown, Monitor, logln0,
}
use renogy_x.Influx.Transfer.Loop.{main_send_recv_loop}
use renogy_x.Influx.Request.{buffer_con, buffer_out}

-- `rv != ERROR_NONE`, `rv == ERROR_SHUTDOWN`, `rv == ERROR_CONNECT` and `rv == ERROR_MODBUS`
abbrev pub is_none : ErrorCode → Bool
is_none error_none = true
is_none _ = false

abbrev pub is_shutdown : ErrorCode → Bool
is_shutdown error_shutdown = true
is_shutdown _ = false

-- A reading in signed decimal.
abbrev pub decimal_ℤ : ℤ → List ℕ
decimal_ℤ (pos n) = decimal n
decimal_ℤ (negsuc n) = b'-' ∷ decimal (suc n)

abbrev pub renogy_voltage_reg : ℕ
renogy_voltage_reg = 0x0101

abbrev pub renogy_id : ℕ
renogy_id = 1

abbrev pub secs : ℕ
secs = 60

-- `1000 * 1000 * 60`
abbrev pub one_minute : ℕ
one_minute = 60000000

-- `end_send_time = start_send_time + g_secs * 1000`, an `int`.
unfoldable pub end_of : ℤ → ℤ
unfolding wrap32 ◌+ℤ◌
end_of start_send_time = wrap32 (start_send_time +ℤ pos (secs * 1000))

module _ (S : System) where
  abbrev pub Outcome : Type 0
  Outcome = Option (ErrorCode × Monitor S)

  -- A step that may use up its turns, and what follows it.
  unfoldable pub after : Outcome → (ErrorCode → Monitor S → Outcome) → Outcome
  after none k = none
  after (some (rv, s)) k = k rv s

  -- The end of a turn: the loop is left with any code but `ERROR_NONE`.
  unfoldable pub repeat : (Monitor S → Outcome) → ErrorCode → Monitor S → Outcome
  repeat again error_none s = again s
  repeat again error_fatal s = some (error_fatal, s)
  repeat again error_connect s = some (error_connect, s)
  repeat again error_modbus s = some (error_modbus, s)
  repeat again error_shutdown s = some (error_shutdown, s)

  -- The note that is written where the code is `ERROR_SHUTDOWN`.
  unfoldable pub note_shutdown : ℕ → List ℕ → ErrorCode → Monitor S → Monitor S
  note_shutdown line function rv s =
      if is_shutdown rv then logln0 S log_info line function (codes "shutting down") s else s

  unfoldable pub sleep_minute : Monitor S → Monitor S
  sleep_minute s = record s { world = S.usleep one_minute s.world }

  -- The request for the value that was read, and its exchange.
  unfoldable pub post_value : ℤ → ℤ → ℕ → Monitor S → Outcome
  post_value sck start_send_time value s =
      main_send_recv_loop S sck (end_of start_send_time) (record s {
        buffers = record (s.buffers) {
          buffer_con = buffer_con value;
          buffer_out = buffer_out value;
        };
      })

  -- One turn of `main_modbus_loop`, up to the note of a shutdown.
  unfoldable pub modbus_turn : S.Modbus → ℤ → Monitor S → Outcome
  modbus_turn ctx sck s =
      let (read, w1) = get_mstime S s.world in
      let s1 = record s { world = w1 } in
      let ((error, value), w2) = S.modbus_read_registers ctx renogy_voltage_reg 1 w1 in
      let s2 = record s { world = w2 } in
      elim read [
        | none ↦ some (
          error_fatal,
          logln0 S log_error 253 (codes "main_modbus_loop") (codes "get_mstime failed") s1,
        )
        | some now ↦
            if error ==ℤ negsuc 0
            then some (
              error_modbus,
              logln0 S log_error 262 (codes "main_modbus_loop")
                  (codes "modbus_read_registers failed") s2,
            )
            else after (post_value sck now value s2)
                (λ rv t. some (rv, note_shutdown 288 (codes "main_modbus_loop") rv t))
      ]

  unfoldable pub main_modbus_loop : S.Modbus → ℤ → ℕ → Monitor S → Outcome
  main_modbus_loop ctx sck zero s = none
  main_modbus_loop ctx sck (suc fuel) s =
      after (modbus_turn ctx sck s) (repeat (main_modbus_loop ctx sck fuel))
