-- ===== src/Pzem/Balance.antt =====
-- The Modbus context is freed on every way through `main` (examples/readregs/pzem/pzem.c).
use renogy_x.Base.{ℕ, zero, suc, ◌+◌}
use renogy_x.Base.{◌≡◌, refl, ◌∙◌, arith}
use renogy_x.Base.{Option, none, some, List, [], ◌∷◌}
use renogy_x.Base.{pos, pos_part, codes, ltb_ℤ}
use renogy_x.Modbus.Live.{is_some, IsLive, live-free}
use renogy_x.Modbus.Unseen.{view_if}
use renogy_x.Pzem.Meter.{Meter}
use renogy_x.Pzem.Options.{Options, initial, parse_args}
use renogy_x.Pzem.Session.{
  set_up, reset, show_slave, read_once, read_loop, connected, on_context, session, main, pause,
}

module _ (T : Meter) (live : T.World → ℕ) where
  module _ (laws : IsLive T live) (ctx : T.Context) (o : Options) where
    live-set_up : (w : T.World) → live (set_up T ctx o w) ≡ live w
    unfolding set_up
    live-set_up w =
        laws.unseen.of_timeout ctx _
        ∙ laws.unseen.of_slave ctx o.pzem_id _
        ∙ laws.unseen.of_recovery ctx _
        ∙ view_if T live o.debug _ w (live w) (laws.unseen.of_debug ctx w) refl

    live-reset : (w : T.World) → live (reset T ctx o w) ≡ live w
    unfolding reset
    live-reset w =
        view_if T live o.reset_energy _ w (live w)
          (laws.unseen.of_usleep 1000000 _ ∙ laws.unseen.of_receive ctx _ ∙ laws.of_send ctx _ w)
          refl

    live-show_slave : (w : T.World) → live (show_slave T ctx o w) ≡ live w
    unfolding show_slave
    live-show_slave w =
        view_if T live o.show_slave_params _ w (live w)
          (laws.unseen.of_usleep 1000000 _
            ∙ laws.unseen.of_printf _ _
            ∙ laws.of_registers ctx 0x0000 4 w)
          refl

    live-read_once : (index : ℕ) (w : T.World) → live (read_once T ctx index w) ≡ live w
    unfolding read_once
    live-read_once index w = laws.unseen.of_printf _ _ ∙ laws.of_inputs ctx 0x0000 8 w

    live-read_loop : (left index : ℕ) (w : T.World) → live (read_loop T ctx o left index w) ≡ live w
    unfolding read_loop
    live-read_loop zero index w = refl
    live-read_loop (suc left) index w =
        live-read_loop left (suc index) _
        ∙ view_if T live (ltb_ℤ (pos (suc index)) o.loop) _ _ (live (read_once T ctx index w))
            (laws.unseen.of_usleep (pause o) _) refl
        ∙ live-read_once index w

    live-connected : (n : ℕ) (w : T.World) → live w ≡ 1 + n → live (connected T ctx o w) ≡ n
    unfolding connected
    live-connected n w e = live-free T live laws n ctx _ (
        view_if T live (ltb_ℤ (pos 0) o.set_id) _ _ (live w) (laws.of_write ctx 0x0002 _ w) (
          view_if T live (ltb_ℤ o.set_range (pos 0)) _ _ (live w)
            (live-read_loop (pos_part o.loop) 0 _ ∙ live-show_slave _ ∙ live-reset w)
            (laws.of_write ctx 0x0003 _ w))
        ∙ e)

  module _ (laws : IsLive T live) where
    live-on_context :
        (o : Options) (c : Option T.Context) (w : T.World) (n : ℕ)
        → live w ≡ is_some c + n
        → live (on_context T o c w).1 ≡ n
    live-on_context o none w n e = omega arith
    live-on_context o (some ctx) w n e =
        let answer = T.modbus_connect ctx (set_up T ctx o w) in
        let held : live answer.1 ≡ 1 + n =
          laws.unseen.of_connect ctx (set_up T ctx o w) ∙ live-set_up laws ctx o w ∙ e in
        ground (
          arith,
          live-free T live laws n ctx answer.1 held,
          live-connected laws ctx o n answer.1 held,
        )

    live-session : (r : Option Options) (w : T.World) → live (session T r w).1 ≡ live w
    live-session none w = refl
    live-session (some o) w =
        let opened = T.modbus_new_rtu (codes "/dev/ttyUSB0") 9600 w in
        live-on_context o opened.0 opened.1 (live w) (laws.of_new (codes "/dev/ttyUSB0") 9600 w)

    -- Whatever the command line and the answers are, as many contexts are in use after the program as
    -- before it.
    pub main_balance : (argv : List (List ℕ)) (w : T.World) → live (main T argv w).1 ≡ live w
    unfolding main
    main_balance [] w = refl
    main_balance (name ∷ []) w = refl
    main_balance (name ∷ arg ∷ args) w =
        live-session (parse_args T.atoi zero (arg ∷ args) initial) w
