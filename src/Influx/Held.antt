-- ===== src/Influx/Held.antt =====
-- What the monitor holds of the system: blocks of memory, sockets and Modbus contexts
-- (renogy_influx/renogy_influx.c).
use renogy_x.Base.{ℕ, ◌+◌, ◌-◌}
use renogy_x.Base.{◌≡◌, if◌then◌else◌}
use renogy_x.Base.{Option, none, some, List}
use renogy_x.Base.{ℤ, negsuc, ◌==ℤ◌}
use renogy_x.Base.{FdSet, Timeval}
use renogy_x.Influx.System.{System}
use renogy_x.Influx.Log.Laws.{IsUnitCount, unit-logln}
use renogy_x.Influx.Env.{Monitor, logln0}

-- How much a block, a socket and a context count.
pub record Units : Type 0 where
  pub block : ℕ
  pub socket : ℕ
  pub context : ℕ

abbrev pub taken : {A : Type 0} → ℕ → Option A → ℕ
taken unit none = 0
taken unit (some a) = unit

module _ (S : System) (held : S.World → ℕ) (u : Units) where
  -- `malloc`, `socket` and `modbus_new_rtu` add what a block, a socket and a context count where they
  -- succeed, `free`, `close` and `modbus_free` take it away, and the other calls leave the number alone.
  pub record IsHeld : Type 0 where
    pub heap : IsUnitCount S u.block held
    pub of_close : (fd : ℤ) (w : S.World) → held (S.close fd w) ≡ held w - u.socket
    pub of_socket :
        (w : S.World)
        → held (S.socket w).1 ≡ (if (S.socket w).0 ==ℤ negsuc 0 then held w else held w + u.socket)
    pub of_new :
        (w : S.World)
        → held (S.modbus_new_rtu w).1 ≡ taken u.context (S.modbus_new_rtu w).0 + held w
    pub of_modbus_free :
        (c : S.Modbus) (w : S.World) → held (S.modbus_free c w) ≡ held w - u.context
    pub of_usleep : (n : ℕ) (w : S.World) → held (S.usleep n w) ≡ held w
    pub of_select :
        (nfds : ℤ) (r u : FdSet) (t : Timeval) (w : S.World)
        → held (S.select nfds r u t w).1 ≡ held w
    pub of_recv : (fd : ℤ) (n : ℕ) (w : S.World) → held (S.recv fd n w).1 ≡ held w
    pub of_send : (fd : ℤ) (bytes : List ℕ) (w : S.World) → held (S.send fd bytes w).1 ≡ held w
    pub of_resolver : (name : List ℕ) (w : S.World) → held (S.gethostbyname name w).1 ≡ held w
    pub of_connect :
        (fd : ℤ) (ip : List ℕ) (port : ℕ) (w : S.World) → held (S.connect fd ip port w).1 ≡ held w
    pub of_recovery :
        (c : S.Modbus) (w : S.World) → held (S.modbus_set_error_recovery c w).1 ≡ held w
    pub of_slave : (c : S.Modbus) (id : ℕ) (w : S.World) → held (S.modbus_set_slave c id w) ≡ held w
    pub of_modbus_connect : (c : S.Modbus) (w : S.World) → held (S.modbus_connect c w).1 ≡ held w
    pub of_read :
        (c : S.Modbus) (a n : ℕ) (w : S.World) → held (S.modbus_read_registers c a n w).1 ≡ held w

  module _ (laws : IsHeld) where
    pub held-logln0 :
        (log_level line : ℕ) (function text : List ℕ) (s : Monitor S)
        → held (logln0 S log_level line function text s).world ≡ held s.world
    unfolding logln0
    held-logln0 log_level line function text s =
        unit-logln S u.block held laws.heap log_level _ s.log s.world
