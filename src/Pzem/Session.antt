-- ===== src/Pzem/Session.antt =====
-- The session with the meter, from `main` (examples/readregs/pzem/pzem.c).
use renogy_x.Base.{ℕ, zero, suc, ◌%◌, ◌^◌}
use renogy_x.Base.{if◌then◌else◌}
use renogy_x.Base.{Option, none, some, List, [], ◌∷◌}
use renogy_x.Base.{ℤ, pos, negsuc, codes, ltb_ℤ, pos_part, ◌==ℤ◌, wrap32, to_u32, mul_ℕ}
use renogy_x.Pzem.Meter.{Meter, slave_report, reading_report, slave_failed, reading_failed}
use renogy_x.Pzem.Options.{Options, initial, parse_args}

-- `loop_delay`, which is at least 1.
abbrev pub delay_of : Options → ℤ
delay_of o = if ltb_ℤ o.loop_delay (pos 1) then pos 1 else o.loop_delay

-- `loop_delay * 1000 * 1000`, an `int`, as `usleep` takes it.
unfoldable pub pause : Options → ℕ
unfolding wrap32 to_u32
pause o = to_u32 (wrap32 (mul_ℕ (wrap32 (mul_ℕ (delay_of o) 1000)) 1000))

-- An `int` passed as a `uint16_t`.
abbrev pub as_u16 : ℤ → ℕ
as_u16 a = to_u32 a % 2 ^ 16

module _ (T : Meter) where
  abbrev pub Do : Type 0
  Do = T.World → T.World

  -- The calls before the connection.
  unfoldable pub set_up : T.Context → Options → Do
  set_up ctx o w =
      let w1 = if o.debug then T.modbus_set_debug ctx w else w in
      T.modbus_get_response_timeout ctx
        (T.modbus_set_slave ctx o.pzem_id (T.modbus_set_error_recovery ctx w1))

  unfoldable pub reset : T.Context → Options → Do
  reset ctx o w =
      let raw = to_u32 o.pzem_id % 256 ∷ 0x42 ∷ [] in
      if o.reset_energy
      then T.usleep 1000000 (T.modbus_receive ctx (T.modbus_send_raw_request ctx raw w))
      else w

  unfoldable pub show_slave : T.Context → Options → Do
  show_slave ctx o w =
      let ((error, registers), w') = T.modbus_read_registers ctx 0x0000 4 w in
      if o.show_slave_params
      then T.usleep 1000000
          (T.printf (if error ==ℤ pos 4 then slave_report registers else slave_failed error) w')
      else w

  unfoldable pub read_once : T.Context → ℕ → Do
  read_once ctx index w =
      let ((error, registers), w') = T.modbus_read_input_registers ctx 0x0000 8 w in
      T.printf (if error ==ℤ pos 8 then reading_report index registers else reading_failed error) w'

  -- The first number counts the rounds that are left.
  unfoldable pub read_loop : T.Context → Options → ℕ → ℕ → Do
  unfolding read_once pause
  read_loop ctx o zero index w = w
  read_loop ctx o (suc left) index w =
      let w1 = read_once ctx index w in
      let w2 = if ltb_ℤ (pos (suc index)) o.loop then T.usleep (pause o) w1 else w1 in
      read_loop ctx o left (suc index) w2

  -- What follows the connection; the context is freed at the end of each of the three ways.
  unfoldable pub connected : T.Context → Options → Do
  unfolding reset show_slave read_loop
  connected ctx o w = T.modbus_free ctx (
      if ltb_ℤ (pos 0) o.set_id
      then T.modbus_write_register ctx 0x0002 (as_u16 o.set_id) w
      else if ltb_ℤ o.set_range (pos 0)
      then read_loop ctx o (pos_part o.loop) 0 (show_slave ctx o (reset ctx o w))
      else T.modbus_write_register ctx 0x0003 (as_u16 o.set_range) w)

  -- What follows `modbus_new_rtu`.
  abbrev pub on_context : Options → Option T.Context → T.World → ℕ × T.World
  on_context o none w = (1, w)
  on_context o (some ctx) w =
      let (error, w1) = T.modbus_connect ctx (set_up ctx o w) in
      if error ==ℤ negsuc 0 then (1, T.modbus_free ctx w1) else (0, connected ctx o w1)

  -- What follows the command line.
  abbrev pub session : Option Options → T.World → ℕ × T.World
  session none w = (1, w)
  session (some o) w =
      let (opened, w1) = T.modbus_new_rtu (codes "/dev/ttyUSB0") 9600 w in on_context o opened w1

  -- `argv`, with the program's name; `argc` is its length.
  unfoldable pub main : List (List ℕ) → T.World → ℕ × T.World
  unfolding parse_args
  main [] w = (0, w)
  main (name ∷ []) w = (0, w)
  main (name ∷ arg ∷ args) w = session (parse_args T.atoi zero (arg ∷ args) initial) w
