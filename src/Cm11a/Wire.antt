-- ===== src/Cm11a/Wire.antt =====
-- What the driver puts on the serial line (libcm11a/libcm11a.c, the second half of
-- `libcm11a_check_wait_objs`).
use renogy_x.Base.{ℕ, ◌+◌, ◌-◌, ◌≤◌, ◌<◌}
use renogy_x.Base.{◌≡◌, ap, ◌∙◌, arith}
use renogy_x.Base.{List, ◌++◌}
use renogy_x.Base.{length, take, take_all}
use renogy_x.Base.{ℤ, pos, pos_part}
use renogy_x.Cm11a.Device.{Host, State, Act}
use renogy_x.Cm11a.Device.{Block, data_block, call_pointer}
use renogy_x.Cm11a.Wait.{after_write, send_data}
use renogy_x.Cm11a.Serving.{drained}

module _ (H : Host) (call : H.App → Act H ℤ) (wire : H.World → List ℕ) where
  -- `wire` is what the line has carried: a write adds the first bytes of its buffer, as many as it
  -- reports, and `free` adds nothing.
  pub record IsWire : Type 0 where
    pub of_write :
        (port : H.Handle) (bytes : List ℕ) (n timeout : ℕ) (w : H.World)
        → wire (H.sp_blocking_write port bytes n timeout w).1
          ≡ wire w ++ take (pos_part (H.sp_blocking_write port bytes n timeout w).0) bytes
    pub of_free : (b : Block) (w : H.World) → wire (H.free b w) ≡ wire w

  module _ (laws : IsWire) (bytes : List ℕ) (n : ℕ) (s : State H) where
    -- The write that `send_data` makes.
    abbrev pub write_call : ℤ × H.World
    write_call = H.sp_blocking_write s.dev.port bytes (s.dev.data_bytes - s.dev.data_sent) 0 s.world

    -- The state after a write of `n` bytes, before the test for the end.
    abbrev pub counted : State H
    counted = record {
      dev = record (s.dev) { data_sent = s.dev.data_sent + n };
      world = write_call.1;
    }

    wrote : write_call.0 ≡ pos n → wire write_call.1 ≡ wire s.world ++ take n bytes
    wrote e =
        laws.of_write s.dev.port bytes (s.dev.data_bytes - s.dev.data_sent) 0 s.world
        ∙ ap (λ z. wire s.world ++ take (pos_part z) bytes) e

    send_data_complete :
        write_call.0 ≡ pos n
        → 0 < n
        → s.dev.data_bytes ≤ s.dev.data_sent + n
        → (send_data H call bytes s ≡ call_pointer H call s.dev.done_write (drained H counted))
          × (wire (drained H counted).world ≡ wire s.world ++ take n bytes)
    unfolding send_data after_write
    send_data_complete e p h = (ground arith, laws.of_free data_block write_call.1 ∙ wrote e)

  module _ (laws : IsWire) (bytes : List ℕ) (s : State H) where
    -- Where nothing is sent yet and the line takes all the data in one write, the line carries exactly
    -- the data, and `done_write` is called on a driver that is free again.
    pub send_data-whole :
        length bytes ≡ s.dev.data_bytes
        → s.dev.data_sent ≡ 0
        → 0 < s.dev.data_bytes
        → (write_call laws bytes (s.dev.data_bytes) s).0 ≡ pos s.dev.data_bytes
        → let t = drained H (counted laws bytes s.dev.data_bytes s) in
          (send_data H call bytes s ≡ call_pointer H call s.dev.done_write t)
          × (wire t.world ≡ wire s.world ++ bytes)
    send_data-whole size start some_data took =
        let (run, line) =
          send_data_complete laws bytes s.dev.data_bytes s took some_data (omega arith) in
        (run, line ∙ ap (λ l. wire s.world ++ l) (take_all s.dev.data_bytes bytes (omega arith)))
