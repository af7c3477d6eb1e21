-- ===== src/Modbus/Live.antt =====
-- The number of the Modbus contexts in use (examples/readregs).
use renogy_x.Base.{ℕ, ◌+◌, ◌<◌}
use renogy_x.Base.{◌≡◌, arith}
use renogy_x.Base.{Option, none, some, List}
use renogy_x.Modbus.Calls.{Bus}
use renogy_x.Modbus.Unseen.{IsUnseen}

abbrev pub is_some : {A : Type 0} → Option A → ℕ
is_some none = 0
is_some (some a) = 1

module _ {Report : Type 0} (T : Bus Report) (live : T.World → ℕ) where
  -- Opening the line adds one if it gives one, freeing takes one away, and the other calls change
  -- nothing.
  pub record IsLive : Type 0 where
    pub unseen : IsUnseen T live
    pub of_new :
        (name : List ℕ) (baud : ℕ) (w : T.World)
        → live (T.modbus_new_rtu name baud w).1 ≡ is_some (T.modbus_new_rtu name baud w).0 + live w
    pub of_free : (c : T.Context) (w : T.World) → 0 < live w → live (T.modbus_free c w) + 1 ≡ live w
    pub of_write :
        (c : T.Context) (r v : ℕ) (w : T.World) → live (T.modbus_write_register c r v w) ≡ live w
    pub of_send :
        (c : T.Context) (raw : List ℕ) (w : T.World)
        → live (T.modbus_send_raw_request c raw w) ≡ live w
    pub of_registers :
        (c : T.Context) (a n : ℕ) (w : T.World) → live (T.modbus_read_registers c a n w).1 ≡ live w
    pub of_inputs :
        (c : T.Context) (a n : ℕ) (w : T.World)
        → live (T.modbus_read_input_registers c a n w).1 ≡ live w

  module _ (laws : IsLive) where
    -- Freeing one of the contexts leaves the others.
    pub live-free :
        (n : ℕ) (c : T.Context) (w : T.World) → live w ≡ 1 + n → live (T.modbus_free c w) ≡ n
    live-free n c w e = omega (arith, laws.of_free c w (omega arith))
