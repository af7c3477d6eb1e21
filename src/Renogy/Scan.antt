-- ===== src/Renogy/Scan.antt =====
-- What `main` asks of the controller, and that it frees its context (examples/readregs/renogy.c).
use renogy_x.Base.{ℕ, zero, suc, ◌+◌}
use renogy_x.Base.{◌≡◌, refl, sym, ap, ◌∙◌, arith}
use renogy_x.Base.{false, Option, none, some, List, [], ◌∷◌, ◌++◌}
use renogy_x.Base.{negsuc, codes, ◌==ℤ◌}
use mathlib.Core.List.{append_assoc, append-nil}
use renogy_x.Modbus.Unseen.{IsUnseen}
use renogy_x.Modbus.Live.{is_some, IsLive, live-free}
use renogy_x.Modbus.Trace.{Request, inputs, IsTrace}
use renogy_x.Renogy.Session.{
  Controller, renogy_id, set_up, read_register, read_loop, on_context, main,
}

-- Reads of single registers, from a first one on.
abbrev pub scan : ℕ → ℕ → List Request
scan zero first = []
scan (suc n) first = inputs first 1 ∷ scan n (suc first)

module _ (T : Controller) where
  module _ {A : Type 0} (view : T.World → A) (unseen : IsUnseen T view) (ctx : T.Context) where
    view-set_up : (w : T.World) → view (set_up T ctx w) ≡ view w
    unfolding set_up
    view-set_up w =
        unseen.of_timeout ctx _
        ∙ unseen.of_slave ctx renogy_id _
        ∙ unseen.of_recovery ctx _
        ∙ unseen.of_debug ctx w

    view-read_register :
        (index : ℕ) (w : T.World)
        → view (read_register T ctx index w) ≡ view (T.modbus_read_input_registers ctx index 1 w).1
    unfolding read_register
    view-read_register index w = unseen.of_usleep 1000000 _ ∙ unseen.of_printf _ _

  module _ (trace : T.World → List Request) (laws : IsTrace T trace) where
    trace-read_loop :
        (ctx : T.Context) (n first : ℕ) (w : T.World)
        → trace (read_loop T ctx n first w) ≡ trace w ++ scan n first
    unfolding read_loop
    trace-read_loop ctx zero first w = sym (append-nil (trace w))
    trace-read_loop ctx (suc n) first w =
        trace-read_loop ctx n (suc first) (read_register T ctx first w)
        ∙ ap (λ t. t ++ scan n (suc first))
            (view-read_register trace laws.unseen ctx first w ∙ laws.of_inputs ctx first 1 w)
        ∙ append_assoc (trace w) (inputs first 1 ∷ []) (scan n (suc first))

    trace-on_context :
        (ctx : T.Context) (w : T.World)
        → ((T.modbus_connect ctx (set_up T ctx w)).0 ==ℤ negsuc 0) ≡ false
        → ((on_context T (some ctx) w).0 ≡ 0)
          × (trace (on_context T (some ctx) w).1 ≡ trace w ++ scan 10 0)
    unfolding on_context
    trace-on_context ctx w made = rw made (
      refl,
      laws.of_free ctx _
          ∙ trace-read_loop ctx 10 0 (T.modbus_connect ctx (set_up T ctx w)).1
          ∙ ap (λ t. t ++ scan 10 0)
              (laws.unseen.of_connect ctx _ ∙ view-set_up trace laws.unseen ctx w),
    )

    -- Where the line opens and the connection is made, the program asks for the registers 0 to 9, one
    -- at a time and in order, for nothing else, and ends with status 0.
    pub trace-main :
        (ctx : T.Context) (w : T.World)
        → let opened = T.modbus_new_rtu (codes "/dev/ttyUSB0") 9600 w in
          opened.0 ≡ some ctx
          → ((T.modbus_connect ctx (set_up T ctx opened.1)).0 ==ℤ negsuc 0) ≡ false
          → ((main T w).0 ≡ 0) × (trace (main T w).1 ≡ trace w ++ scan 10 0)
    unfolding main
    trace-main ctx w given made =
        let device = codes "/dev/ttyUSB0" in
        let (status, asked) = trace-on_context ctx (T.modbus_new_rtu device 9600 w).1 made in
        rw given (status, asked ∙ ap (λ t. t ++ scan 10 0) (laws.of_new device 9600 w))

  module _ (live : T.World → ℕ) (laws : IsLive T live) where
    live-read_loop :
        (ctx : T.Context) (n first : ℕ) (w : T.World) → live (read_loop T ctx n first w) ≡ live w
    unfolding read_loop
    live-read_loop ctx zero first w = refl
    live-read_loop ctx (suc n) first w =
        live-read_loop ctx n (suc first) (read_register T ctx first w)
        ∙ view-read_register live laws.unseen ctx first w
        ∙ laws.of_inputs ctx first 1 w

    live-on_context :
        (c : Option T.Context) (w : T.World) (n : ℕ)
        → live w ≡ is_some c + n
        → live (on_context T c w).1 ≡ n
    unfolding on_context
    live-on_context none w n e = omega arith
    live-on_context (some ctx) w n e =
        let answer = T.modbus_connect ctx (set_up T ctx w) in
        let held : live answer.1 ≡ 1 + n =
          laws.unseen.of_connect ctx _ ∙ view-set_up live laws.unseen ctx w ∙ e in
        ground (
          arith,
          live-free T live laws n ctx answer.1 held,
          live-free T live laws n ctx (read_loop T ctx 10 0 answer.1)
              (live-read_loop ctx 10 0 answer.1 ∙ held),
        )

    -- As many contexts are in use after the program as before it, whatever the bus answers.
    pub live-main : (w : T.World) → live (main T w).1 ≡ live w
    unfolding main
    live-main w =
        let opened = T.modbus_new_rtu (codes "/dev/ttyUSB0") 9600 w in
        live-on_context opened.0 opened.1 (live w) (laws.of_new (codes "/dev/ttyUSB0") 9600 w)
