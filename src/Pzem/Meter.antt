-- ===== src/Pzem/Meter.antt =====
-- The registers that the program decodes, and the lines that it prints
-- (examples/readregs/pzem/pzem.c).
use renogy_x.Base.{ℕ, ◌+◌, ◌*◌, ◌^◌}
use renogy_x.Base.{List}
use renogy_x.Base.{ℤ, pos, wrap32}
use renogy_x.Modbus.Calls.{Bus, register}

-- The lines with register values. A value printed over 100.0 or 10.0 is kept before the division.
pub data Report : Type 0 where
  slave_params : (high_volt low_volt address range : ℕ) → Report
  reading : (index volts current : ℕ) (power energy : ℤ) (high_alarm low_alarm : ℕ) → Report
  slave_failed : ℤ → Report
  reading_failed : ℤ → Report

-- `lo | (hi << 16)`, an `int`: the halves have no bit in common.
unfoldable pub word : ℕ → ℕ → ℤ
unfolding wrap32
word lo hi = wrap32 (pos (lo + hi * 2 ^ 16))

-- The program calls libmodbus on such lines.
abbrev pub Meter : Type 1
Meter = Bus Report

unfoldable pub slave_report : List ℕ → Report
slave_report registers =
    slave_params (register registers 0) (register registers 1) (register registers 2)
      (register registers 3)

unfoldable pub reading_report : ℕ → List ℕ → Report
unfolding word
reading_report index registers =
    reading index (register registers 0) (register registers 1)
      (word (register registers 2) (register registers 3))
      (word (register registers 4) (register registers 5)) (register registers 6)
      (register registers 7)
