-- ===== src/Pzem/Requests.antt =====
-- What `main` asks of the meter, option by option (examples/readregs/pzem/pzem.c).
use renogy_x.Base.{ℕ, zero, suc, ◌%◌}
use renogy_x.Base.{◌≡◌, refl, sym, ap, ◌∙◌, if◌then◌else◌}
use renogy_x.Base.{Bool, true, false, some, List, [], ◌∷◌, ◌++◌}
use renogy_x.Base.{pos, negsuc, pos_part, codes, ltb_ℤ, ◌==ℤ◌, to_u32}
use mathlib.Core.List.{append_assoc, append-nil}
use renogy_x.Modbus.Unseen.{view_if}
use renogy_x.Modbus.Trace.{Request, write, raw, registers, inputs, IsTrace}
use renogy_x.Pzem.Meter.{Meter}
use renogy_x.Pzem.Options.{Options}
use renogy_x.Pzem.Session.{
  set_up, reset, show_slave, read_once, read_loop, connected, session, pause, as_u16,
}

abbrev readings : ℕ → List Request
readings zero = []
readings (suc n) = inputs 0x0000 8 ∷ readings n

abbrev only_if : Bool → Request → List Request
only_if true r = r ∷ []
only_if false r = []

-- The requests of a session: the new address, or else the new range, or else the reset and the
-- parameters where they are asked for and as many readings as `--loop` says.
abbrev pub requests_of : Options → List Request
requests_of o =
    if ltb_ℤ (pos 0) o.set_id
    then write 0x0002 (as_u16 o.set_id) ∷ []
    else if ltb_ℤ o.set_range (pos 0)
    then only_if o.reset_energy (raw (to_u32 o.pzem_id % 256 ∷ 0x42 ∷ []))
      ++ (only_if o.show_slave_params (registers 0x0000 4) ++ readings (pos_part o.loop))
    else write 0x0003 (as_u16 o.set_range) ∷ []

module _ (T : Meter) (trace : T.World → List Request) (laws : IsTrace T trace) where
  module _ (ctx : T.Context) (o : Options) where
    trace-set_up : (w : T.World) → trace (set_up T ctx o w) ≡ trace w
    unfolding set_up
    trace-set_up w =
        laws.unseen.of_timeout ctx _
        ∙ laws.unseen.of_slave ctx o.pzem_id _
        ∙ laws.unseen.of_recovery ctx _
        ∙ view_if T trace o.debug _ w (trace w) (laws.unseen.of_debug ctx w) refl

    -- A request that is made only where a test says so.
    trace-only_if :
        (b : Bool) (r : Request) (v w : T.World)
        → trace v ≡ trace w ++ (r ∷ [])
        → trace (if b then v else w) ≡ trace w ++ only_if b r
    trace-only_if true r v w e = e
    trace-only_if false r v w e = sym (append-nil (trace w))

    trace-reset :
        (w : T.World)
        → trace (reset T ctx o w)
          ≡ trace w ++ only_if o.reset_energy (raw (to_u32 o.pzem_id % 256 ∷ 0x42 ∷ []))
    unfolding reset
    trace-reset w = trace-only_if o.reset_energy _ _ w (
        laws.unseen.of_usleep 1000000 _
        ∙ laws.unseen.of_receive ctx _
        ∙ laws.of_send ctx (to_u32 o.pzem_id % 256 ∷ 0x42 ∷ []) w)

    trace-show_slave :
        (w : T.World)
        → trace (show_slave T ctx o w) ≡ trace w ++ only_if o.show_slave_params (registers 0x0000 4)
    unfolding show_slave
    trace-show_slave w = trace-only_if o.show_slave_params _ _ w (
        laws.unseen.of_usleep 1000000 _
        ∙ laws.unseen.of_printf _ _
        ∙ laws.of_registers ctx 0x0000 4 w)

    trace-read_loop :
        (left index : ℕ) (w : T.World)
        → trace (read_loop T ctx o left index w) ≡ trace w ++ readings left
    unfolding read_loop read_once
    trace-read_loop zero index w = sym (append-nil (trace w))
    trace-read_loop (suc left) index w =
        trace-read_loop left (suc index) _
        ∙ ap (λ t. t ++ readings left)
            (view_if T trace (ltb_ℤ (pos (suc index)) o.loop) _ _ (trace (read_once T ctx index w))
                (laws.unseen.of_usleep (pause o) _) refl
              ∙ laws.unseen.of_printf _ _
              ∙ laws.of_inputs ctx 0x0000 8 w)
        ∙ append_assoc (trace w) (inputs 0x0000 8 ∷ []) (readings left)

    trace-polled :
        (n : ℕ) (w : T.World)
        → trace (read_loop T ctx o n 0 (show_slave T ctx o (reset T ctx o w)))
          ≡ trace w
            ++ (only_if o.reset_energy (raw (to_u32 o.pzem_id % 256 ∷ 0x42 ∷ []))
                ++ (only_if o.show_slave_params (registers 0x0000 4) ++ readings n))
    trace-polled n w =
        trace-read_loop n 0 _
        ∙ ap (λ t. t ++ readings n) (trace-show_slave (reset T ctx o w))
        ∙ append_assoc (trace (reset T ctx o w)) _ (readings n)
        ∙ ap (λ t. t ++ (only_if o.show_slave_params (registers 0x0000 4) ++ readings n))
            (trace-reset w)
        ∙ append_assoc (trace w) _ _

    trace_if :
        (b : Bool) (v w : T.World) (t : List Request) (xs ys : List Request)
        → trace v ≡ t ++ xs
        → trace w ≡ t ++ ys
        → trace (if b then v else w) ≡ t ++ (if b then xs else ys)
    trace_if true v w t xs ys p q = p
    trace_if false v w t xs ys p q = q

    trace-connected : (w : T.World) → trace (connected T ctx o w) ≡ trace w ++ requests_of o
    unfolding connected
    trace-connected w =
        laws.of_free ctx _
        ∙ trace_if (ltb_ℤ (pos 0) o.set_id) _ _ (trace w) _ _ (laws.of_write ctx 0x0002 _ w) (
            trace_if (ltb_ℤ o.set_range (pos 0)) _ _ (trace w) _ _
              (trace-polled (pos_part o.loop) w) (laws.of_write ctx 0x0003 _ w))

    -- Where the line opens and the connection is made, the session asks exactly what its options say,
    -- in this order, and ends with status 0.
    pub trace-session :
        (w : T.World)
        → let opened = T.modbus_new_rtu (codes "/dev/ttyUSB0") 9600 w in
          opened.0 ≡ some ctx
          → ((T.modbus_connect ctx (set_up T ctx o opened.1)).0 ==ℤ negsuc 0) ≡ false
          → ((session T (some o) w).0 ≡ 0)
            × (trace (session T (some o) w).1 ≡ trace w ++ requests_of o)
    trace-session w given made =
        let device = codes "/dev/ttyUSB0" in
        let opened = T.modbus_new_rtu device 9600 w in
        rw (given, made)
          (
            refl,
            trace-connected (T.modbus_connect ctx (set_up T ctx o opened.1)).1
                ∙ ap (λ t. t ++ requests_of o)
                    (laws.unseen.of_connect ctx _
                      ∙ trace-set_up opened.1
                      ∙ laws.of_new device 9600 w),
          )
