-- ===== src/Influx/System.antt =====
-- What the monitor calls and does not implement: the C library's system calls, the resolver, the
-- sockets and libmodbus, over a state of the outside world.
use renogy_x.Base.{ℕ}
use renogy_x.Base.{Bool, Option, List}
use renogy_x.Base.{ℤ}
use renogy_x.Base.{FdSet, Timeval, Selected}

pub record System : Type 1 where
  pub World : Type 0
  pub Modbus : Type 0
  pub clock_gettime : World → Option (ℕ × ℕ) × World
  pub malloc : ℕ → World → Bool × World
  pub free : World → World
  pub open_file : List ℕ → ℕ → World → ℤ × World
  pub chmod : List ℕ → ℕ → World → ℤ × World
  pub close : ℤ → World → World
  pub unlink : List ℕ → World → World
  pub rename : List ℕ → List ℕ → World → World
  pub write : ℤ → List ℕ → World → ℤ × World
  pub printf : List ℕ → World → World
  pub usleep : ℕ → World → World
  pub errno : World → ℤ
  pub strerror : ℤ → List ℕ
  pub select : ℤ → FdSet → FdSet → Timeval → World → Selected × World
  pub recv : ℤ → ℕ → World → (ℤ × List ℕ) × World
  pub send : ℤ → List ℕ → World → ℤ × World
  pub socket : World → ℤ × World
  pub gethostbyname : List ℕ → World → Option (List ℕ) × World
  pub connect : ℤ → List ℕ → ℕ → World → ℤ × World
  pub modbus_new_rtu : World → Option Modbus × World
  pub modbus_set_error_recovery : Modbus → World → ℤ × World
  pub modbus_set_slave : Modbus → ℕ → World → World
  pub modbus_connect : Modbus → World → ℤ × World
  pub modbus_free : Modbus → World → World
  pub modbus_strerror : ℤ → List ℕ
  pub modbus_read_registers : Modbus → ℕ → ℕ → World → (ℤ × ℕ) × World
  pub signal : ℕ → World → Bool × World
  pub pipe : World → Option (ℤ × ℤ) × World
  pub fork : World → ℤ × World
  pub getpid : World → ℕ × World
