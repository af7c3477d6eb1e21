-- ===== src/Modbus/Trace.antt =====
-- The requests that a program makes of a device on the bus (examples/readregs).
use renogy_x.Base.{ℕ}
use renogy_x.Base.{◌≡◌}
use renogy_x.Base.{List, [], ◌∷◌, ◌++◌}
use renogy_x.Modbus.Calls.{Bus}
use renogy_x.Modbus.Unseen.{IsUnseen}

pub data Request : Type 0 where
  write : (register value : ℕ) → Request
  raw : List ℕ → Request
  registers : (first count : ℕ) → Request
  inputs : (first count : ℕ) → Request

module _ {Report : Type 0} (T : Bus Report) (trace : T.World → List Request) where
  -- `trace` is the list of the requests so far: each request is added at its end, and the other calls
  -- add nothing.
  pub record IsTrace : Type 0 where
    pub unseen : IsUnseen T trace
    pub of_new :
        (name : List ℕ) (baud : ℕ) (w : T.World) → trace (T.modbus_new_rtu name baud w).1 ≡ trace w
    pub of_free : (c : T.Context) (w : T.World) → trace (T.modbus_free c w) ≡ trace w
    pub of_write :
        (c : T.Context) (r v : ℕ) (w : T.World)
        → trace (T.modbus_write_register c r v w) ≡ trace w ++ (write r v ∷ [])
    pub of_send :
        (c : T.Context) (bytes : List ℕ) (w : T.World)
        → trace (T.modbus_send_raw_request c bytes w) ≡ trace w ++ (raw bytes ∷ [])
    pub of_registers :
        (c : T.Context) (a n : ℕ) (w : T.World)
        → trace (T.modbus_read_registers c a n w).1 ≡ trace w ++ (registers a n ∷ [])
    pub of_inputs :
        (c : T.Context) (a n : ℕ) (w : T.World)
        → trace (T.modbus_read_input_registers c a n w).1 ≡ trace w ++ (inputs a n ∷ [])
