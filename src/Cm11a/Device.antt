-- ===== src/Cm11a/Device.antt =====
-- The driver's state and what it calls: `struct libcm11a_t` of libcm11a/libcm11a.h, and the functions
-- of libserialport, of the C heap and of the system as a parameter.
use renogy_x.Base.{ℕ}
use renogy_x.Base.{Bool, Option, some, List}
use renogy_x.Base.{ℤ, pos}
use renogy_x.Base.{M, pure, modify}
use renogy_x.Base.{FdSet, Timeval, Selected}

-- A function pointer of the struct: one of the six defaults of the library, or a function of the
-- application.
pub data Pointer (App : Type 0) : Type 0 where
  default_interface_ready : Pointer App
  default_interface_poll : Pointer App
  default_time_request : Pointer App
  default_crc_ok : Pointer App
  default_crc_not_ok : Pointer App
  default_done_write : Pointer App
  app : App → Pointer App

-- `struct libcm11a_t`. `data_buf` is the pointer `data`, `none` where that is NULL, and `user` the
-- sixteen application words.
pub record Cm11a (App Handle : Type 0) : Type 0 where
  pub version : ℕ
  pub fd : ℤ
  pub want_crc : Bool
  pub crc : ℕ
  pub data_sent : ℕ
  pub data_bytes : ℕ
  pub data_buf : Option (List ℕ)
  pub port : Handle
  pub port_name : Option (List ℕ)
  pub user : List ℕ
  pub interface_ready : Pointer App
  pub interface_poll : Pointer App
  pub time_request : Pointer App
  pub crc_ok : Pointer App
  pub crc_not_ok : Pointer App
  pub done_write : Pointer App

-- What a function with a pointer to the struct reads and changes.
pub record St (App Handle World : Type 0) : Type 0 where
  pub dev : Cm11a App Handle
  pub world : World

-- The blocks that the library takes from the heap.
pub data Block : Type 0 where
  device_block port_name_block data_block : Block

-- The code that the library calls and does not implement. `malloc` says whether the block was given;
-- `sp_blocking_read` returns its result with the byte that the buffer then holds.
pub record Host : Type 1 where
  pub World : Type 0
  pub Handle : Type 0
  pub App : Type 0
  pub select : ℤ → FdSet → FdSet → Timeval → World → Selected × World
  pub sp_get_port_by_name : List ℕ → World → (ℤ × Handle) × World
  pub sp_open : Handle → World → ℤ × World
  pub sp_set_baudrate : Handle → ℕ → World → ℤ × World
  pub sp_set_stopbits : Handle → ℕ → World → ℤ × World
  pub sp_set_parity_none : Handle → World → ℤ × World
  pub sp_set_bits : Handle → ℕ → World → ℤ × World
  pub sp_get_port_handle : Handle → World → (ℤ × ℤ) × World
  pub sp_close : Handle → World → World
  pub sp_blocking_read : Handle → ℕ → ℕ → World → (ℤ × ℕ) × World
  pub sp_blocking_write : Handle → List ℕ → ℕ → ℕ → World → ℤ × World
  pub malloc : Block → ℕ → World → Bool × World
  pub free : Block → World → World

module _ (H : Host) where
  abbrev pub Device : Type 0
  Device = Cm11a H.App H.Handle

  abbrev pub State : Type 0
  State = St H.App H.Handle H.World

  abbrev pub Act : Type 0 → Type 0
  Act A = M State A

  -- A call of the system: the struct stays as it is.
  abbrev pub sys : {A : Type 0} → (H.World → A × H.World) → Act A
  sys f s = let (a, w) = f s.world in some (a, record s { world = w })

  -- A call that returns nothing.
  abbrev pub sys_do : (H.World → H.World) → Act (Unit {0})
  sys_do f s = some (tt, record s { world = f s.world })

  abbrev pub set_dev : (Device → Device) → Act (Unit {0})
  set_dev f = modify (λ s. record s { dev = f s.dev })

  -- The defaults take the struct and return 0.
  pub libcm11a_interface_ready : Act ℤ
  libcm11a_interface_ready = pure (pos 0)

  pub libcm11a_interface_poll : Act ℤ
  libcm11a_interface_poll = pure (pos 0)

  pub libcm11a_time_request : Act ℤ
  libcm11a_time_request = pure (pos 0)

  pub libcm11a_crc_ok : Act ℤ
  libcm11a_crc_ok = pure (pos 0)

  pub libcm11a_crc_not_ok : Act ℤ
  libcm11a_crc_not_ok = pure (pos 0)

  pub libcm11a_done_write : Act ℤ
  libcm11a_done_write = pure (pos 0)

-- The functions of the application, which the library calls.
module _ (H : Host) (call : H.App → Act H ℤ) where
  -- A call through a function pointer.
  unfoldable pub call_pointer : Pointer H.App → Act H ℤ
  unfolding libcm11a_interface_ready libcm11a_interface_poll libcm11a_time_request libcm11a_crc_ok
      libcm11a_crc_not_ok libcm11a_done_write
  call_pointer default_interface_ready = libcm11a_interface_ready H
  call_pointer default_interface_poll = libcm11a_interface_poll H
  call_pointer default_time_request = libcm11a_time_request H
  call_pointer default_crc_ok = libcm11a_crc_ok H
  call_pointer default_crc_not_ok = libcm11a_crc_not_ok H
  call_pointer default_done_write = libcm11a_done_write H
  call_pointer (app f) = call f
