-- ===== src/Modbus/Calls.antt =====
-- What the programs of examples/readregs call: libmodbus and the system, as a parameter.
use renogy_x.Base.{ℕ, ◌%◌, ◌^◌}
use renogy_x.Base.{Option, List}
use renogy_x.Base.{get_or}
use renogy_x.Base.{ℤ}

-- The calls of libmodbus and of the system by a program that prints lines of type `Report`. Where the
-- programs do not use a result, it is left out.
-- A read returns its result with the registers that the array then holds.
pub record Bus (Report : Type 0) : Type 1 where
  pub World : Type 0
  pub Context : Type 0
  pub atoi : List ℕ → ℤ
  pub modbus_new_rtu : List ℕ → ℕ → World → Option Context × World
  pub modbus_set_debug : Context → World → World
  pub modbus_set_error_recovery : Context → World → World
  pub modbus_set_slave : Context → ℤ → World → World
  pub modbus_get_response_timeout : Context → World → World
  pub modbus_connect : Context → World → ℤ × World
  pub modbus_free : Context → World → World
  pub modbus_write_register : Context → ℕ → ℕ → World → World
  pub modbus_send_raw_request : Context → List ℕ → World → World
  pub modbus_receive : Context → World → World
  pub modbus_read_registers : Context → ℕ → ℕ → World → (ℤ × List ℕ) × World
  pub modbus_read_input_registers : Context → ℕ → ℕ → World → (ℤ × List ℕ) × World
  pub usleep : ℕ → World → World
  pub printf : Report → World → World

-- `registers[i]`, a `uint16_t`.
abbrev pub register : List ℕ → ℕ → ℕ
register registers i = get_or registers i 0 % 2 ^ 16
