-- ===== src/Modbus/Unseen.antt =====
-- What the programs see of the bus is left alone by the calls that set a context up, wait, sleep and
-- print (examples/readregs).
use renogy_x.Base.{ℕ}
use renogy_x.Base.{◌≡◌, if◌then◌else◌}
use renogy_x.Base.{Bool, true, false}
use renogy_x.Base.{ℤ}
use renogy_x.Modbus.Calls.{Bus}

module _ {Report : Type 0} (T : Bus Report) {A : Type 0} (view : T.World → A) where
  pub record IsUnseen : Type 0 where
    pub of_debug : (c : T.Context) (w : T.World) → view (T.modbus_set_debug c w) ≡ view w
    pub of_recovery :
        (c : T.Context) (w : T.World) → view (T.modbus_set_error_recovery c w) ≡ view w
    pub of_slave : (c : T.Context) (i : ℤ) (w : T.World) → view (T.modbus_set_slave c i w) ≡ view w
    pub of_timeout :
        (c : T.Context) (w : T.World) → view (T.modbus_get_response_timeout c w) ≡ view w
    pub of_connect : (c : T.Context) (w : T.World) → view (T.modbus_connect c w).1 ≡ view w
    pub of_receive : (c : T.Context) (w : T.World) → view (T.modbus_receive c w) ≡ view w
    pub of_usleep : (n : ℕ) (w : T.World) → view (T.usleep n w) ≡ view w
    pub of_printf : (r : Report) (w : T.World) → view (T.printf r w) ≡ view w

  -- Both branches of a test leave the same.
  pub view_if :
      (b : Bool) (x y : T.World) (v : A) → view x ≡ v → view y ≡ v → view (if b then x else y) ≡ v
  view_if true x y v p q = p
  view_if false x y v p q = q
