-- ===== src/Renogy/Session.antt =====
-- `main` of examples/readregs/renogy.c.
use renogy_x.Base.{ℕ, zero, suc}
use renogy_x.Base.{if◌then◌else◌}
use renogy_x.Base.{Bool, true, none, some, Option}
use renogy_x.Base.{ℤ, pos, negsuc, codes, ◌==ℤ◌}
use renogy_x.Modbus.Calls.{Bus, register}

-- The line that is printed for a register: the result of its read, and what the array then holds.
pub data Report : Type 0 where
  line : (index : ℕ) (error : ℤ) (value : ℕ) → Report

abbrev pub Controller : Type 1
Controller = Bus Report

-- `g_debug` and `g_renogy_id`
abbrev pub debug : Bool
debug = true

abbrev pub renogy_id : ℤ
renogy_id = pos 12

module _ (T : Controller) where
  unfoldable pub set_up : T.Context → T.World → T.World
  set_up ctx w =
      let w1 = if debug then T.modbus_set_debug ctx w else w in
      T.modbus_get_response_timeout ctx
        (T.modbus_set_slave ctx renogy_id (T.modbus_set_error_recovery ctx w1))

  -- One register is read and printed, and a second slept.
  unfoldable pub read_register : T.Context → ℕ → T.World → T.World
  read_register ctx index w =
      let ((error, registers), w') = T.modbus_read_input_registers ctx index 1 w in
      T.usleep 1000000 (T.printf (line index error (register registers 0)) w')

  -- The `for`, with the number of registers that are left.
  unfoldable pub read_loop : T.Context → ℕ → ℕ → T.World → T.World
  read_loop ctx zero index w = w
  read_loop ctx (suc left) index w = read_loop ctx left (suc index) (read_register ctx index w)

  -- What follows `modbus_new_rtu`: the status, and the outside world at the end.
  unfoldable pub on_context : Option T.Context → T.World → ℕ × T.World
  on_context none w = (1, w)
  on_context (some ctx) w =
      let (error, w1) = T.modbus_connect ctx (set_up ctx w) in
      if error ==ℤ negsuc 0
      then (1, T.modbus_free ctx w1)
      else (0, T.modbus_free ctx (read_loop ctx 10 0 w1))

  unfoldable pub main : T.World → ℕ × T.World
  main w = let (opened, w1) = T.modbus_new_rtu (codes "/dev/ttyUSB0") 9600 w in on_context opened w1
