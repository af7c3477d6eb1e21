-- ===== src/Influx/Monitor/Shutdown.antt =====
-- What a signal does to the loops of renogy_influx/renogy_influx.c: the handler makes the pipe readable,
-- and the exchange with the server looks at it.
use renogy_x.Influx.Monitor.Turns.{
  end_of, Outcome, after, repeat, note_shutdown, post_value, modbus_turn, main_modbus_loop,
}
use renogy_x.Influx.Monitor.Loops.{
  on_lost, on_address, on_socket, connect_turn, main_connect_loop, on_context, on_modbus_error,
  bus_turn, bus_loop, main_modbus,
}
use renogy_x.Base.{ℕ, suc}
use renogy_x.Base.{◌≡◌, refl, ap, arith, if◌then◌else◌}
use renogy_x.Base.{true, false, some, List, [], ◌∷◌}
use renogy_x.Base.{ℤ, pos, negsuc, ◌+ℤ◌, ltb_ℤ, ◌==ℤ◌}
use renogy_x.Base.{codes}
use renogy_x.Base.{FdSet, fd_isset, Timeval, timeval_of_ms}
use renogy_x.Influx.System.{System}
use renogy_x.Influx.Log.{get_mstime, log_info}
use renogy_x.Influx.Env.{ErrorCode, error_shutdown, Monitor, logln0}
use renogy_x.Influx.Transfer.Loop.{
  wait_of, Progress, leave, on_ready, wanted, select_call, on_wait, send_recv_round, next_turn,
  send_recv_turns, main_send_recv_loop,
}
use renogy_x.Influx.Request.{influx_hostname}

module _ (S : System) where
  -- The pipe can be read in every `select` that asks for it.
  abbrev pub IsSignalled : Type 0
  IsSignalled =
      (nfds sck pipe : ℤ) (w : FdSet) (t : Timeval) (v : S.World)
      → let r = (S.select nfds (sck ∷ pipe ∷ []) w t v).0 in
        (ltb_ℤ (pos 0) r.rv ≡ true) × (fd_isset pipe r.rfds ≡ true)

  -- The outcome is a shutdown.
  abbrev pub Shuts : Outcome S → Type 0
  Shuts m = (t : Monitor S) × (m ≡ some (error_shutdown, t))

  ready : (z : ℤ) → ltb_ℤ (pos 0) z ≡ true → ((z ==ℤ pos 0) ≡ false) × (ltb_ℤ z (pos 1) ≡ false)
  ready z h = (ground arith, ground arith)

  on_wait_signalled :
      IsSignalled
      → (sck wait_mstime : ℤ) (p : Progress) (s : Monitor S)
      → (t : Monitor S) × (on_wait S sck wait_mstime p s ≡ (leave error_shutdown, t))
  unfolding on_wait on_ready
  on_wait_signalled signalled sck wait_mstime p s =
      let seen =
        signalled ((if ltb_ℤ sck s.term_pipe then s.term_pipe else sck) +ℤ pos 1) sck s.term_pipe
          (wanted S sck p s) (timeval_of_ms wait_mstime) s.world in
      let (waited, sound) = ready _ seen.0 in
      (
        logln0 S log_info 191 (codes "main_send_recv_loop") (codes "term set, shutting down")
            (record s { world = (select_call S sck wait_mstime p s).1 }),
        rw (waited, sound, seen.1) refl,
      )

  round_signalled :
      IsSignalled
      → (sck end_send_time now : ℤ) (p : Progress) (s : Monitor S)
      → (get_mstime S s.world).0 ≡ some now
      → ltb_ℤ (wait_of end_send_time now) (pos 0) ≡ false
      → (t : Monitor S) × (send_recv_round S sck end_send_time p s ≡ (leave error_shutdown, t))
  unfolding send_recv_round get_mstime wait_of
  round_signalled signalled sck end_send_time now p s read early =
      let s' : Monitor S = record s { world = (get_mstime S s.world).1 } in
      let (t, e) = on_wait_signalled signalled sck (wait_of end_send_time now) p s' in
      (t, rw (read, early) e)

  turns_signalled :
      IsSignalled
      → (sck end_send_time now : ℤ) (fuel : ℕ) (p : Progress) (s : Monitor S)
      → (get_mstime S s.world).0 ≡ some now
      → ltb_ℤ (wait_of end_send_time now) (pos 0) ≡ false
      → Shuts (send_recv_turns S sck end_send_time (suc fuel) p s)
  unfolding send_recv_turns
  turns_signalled signalled sck end_send_time now fuel p s read early =
      let (t, e) = round_signalled signalled sck end_send_time now p s read early in
      (t, unfold next_turn in ap (next_turn S (send_recv_turns S sck end_send_time fuel)) e)

  -- With the pipe readable, the clock running and the minute not over, the first turn of the exchange
  -- is its last.
  pub send_recv_signalled :
      IsSignalled
      → (sck end_send_time now : ℤ) (s : Monitor S) → (get_mstime S s.world).0 ≡ some now
      → ltb_ℤ (wait_of end_send_time now) (pos 0) ≡ false
      → Shuts (main_send_recv_loop S sck end_send_time s)
  unfolding main_send_recv_loop
  send_recv_signalled signalled sck end_send_time now s read early =
      turns_signalled signalled sck end_send_time now 3071 _ _ read early

  -- A world in which memory, bus, sockets, resolver, server and clock answer, and a read of the register
  -- takes less than the minute that the exchange with the server is given.
  pub record IsHealthy : Type 0 where
    pub memory : (n : ℕ) (w : S.World) → (S.malloc n w).0 ≡ true
    pub bus : (w : S.World) → (ctx : S.Modbus) × ((S.modbus_new_rtu w).0 ≡ some ctx)
    pub bus_open :
        (ctx : S.Modbus) (w : S.World) → ((S.modbus_connect ctx w).0 ==ℤ negsuc 0) ≡ false
    pub bus_read :
        (ctx : S.Modbus) (a n : ℕ) (w : S.World)
        → ((S.modbus_read_registers ctx a n w).0.0 ==ℤ negsuc 0) ≡ false
    pub sockets : (w : S.World) → ((S.socket w).0 ==ℤ negsuc 0) ≡ false
    pub resolver :
        (name : List ℕ) (w : S.World) → (ip : List ℕ) × ((S.gethostbyname name w).0 ≡ some ip)
    pub server :
        (sck : ℤ) (ip : List ℕ) (port : ℕ) (w : S.World)
        → ((S.connect sck ip port w).0 ==ℤ pos 0) ≡ true
    pub in_time :
        (ctx : S.Modbus) (v : S.World)
        → let w = (S.modbus_read_registers ctx 0x0101 1 (get_mstime S v).1).1 in
          (a : ℤ) × (b : ℤ) × ((get_mstime S v).0 ≡ some a)
          × ((get_mstime S w).0 ≡ some b)
          × (ltb_ℤ (wait_of (end_of a) b) (pos 0) ≡ false)

  Shuts-after :
      (m : Outcome S) (k : ErrorCode → Monitor S → Outcome S)
      → Shuts m
      → ((t : Monitor S) → Shuts (k error_shutdown t))
      → Shuts (after S m k)
  unfolding after
  Shuts-after m k (t, e) f = rw e (f t)

  Shuts-repeat :
      (again : Monitor S → Outcome S) (t : Monitor S) → Shuts (repeat S again error_shutdown t)
  unfolding repeat
  Shuts-repeat again t = (t, refl)

  module _ (signalled : IsSignalled) (healthy : IsHealthy) where
    modbus_turn-Shuts : (ctx : S.Modbus) (sck : ℤ) (s : Monitor S) → Shuts (modbus_turn S ctx sck s)
    unfolding modbus_turn post_value get_mstime
    modbus_turn-Shuts ctx sck s =
        let w1 = (get_mstime S s.world).1 in
        let (a, b, read, read', early) = healthy.in_time ctx s.world in
        rw (read, healthy.bus_read ctx 0x0101 1 w1)
          (Shuts-after _ _ (send_recv_signalled signalled sck (end_of a) b _ read' early)
            (λ t. (note_shutdown S 288 (codes "main_modbus_loop") error_shutdown t, refl)))

    modbus_loop-Shuts :
        (ctx : S.Modbus) (sck : ℤ) (fuel : ℕ) (s : Monitor S)
        → Shuts (main_modbus_loop S ctx sck (suc fuel) s)
    unfolding main_modbus_loop
    modbus_loop-Shuts ctx sck fuel s =
        Shuts-after _ _ (modbus_turn-Shuts ctx sck s) (λ t. Shuts-repeat _ t)

    on_address-Shuts :
        (ctx : S.Modbus) (sck : ℤ) (fuel : ℕ) (ip : List ℕ) (s : Monitor S)
        → Shuts (on_address S ctx sck (suc fuel) ip s)
    unfolding on_address
    on_address-Shuts ctx sck fuel ip s =
        rw (healthy.server _ _ _ _)
          (Shuts-after _ _ (modbus_loop-Shuts ctx sck fuel _) (λ t. (t, unfold on_lost in refl)))

    on_socket-Shuts :
        (ctx : S.Modbus) (sck : ℤ) (fuel : ℕ) (s : Monitor S)
        → Shuts (on_socket S ctx sck (suc fuel) s)
    unfolding on_socket
    on_socket-Shuts ctx sck fuel s =
        let s1 = logln0 S log_info 312 (codes "main_connect_loop") (codes "tcp sck created ok") s in
        let (ip, found) = healthy.resolver influx_hostname s1.world in
        rw found (
          Shuts-after _ _ (on_address-Shuts ctx sck fuel ip _)
            (λ t. (record t { world = S.close sck t.world }, refl)))

    pub connect_loop-Shuts :
        (ctx : S.Modbus) (inner fuel : ℕ) (s : Monitor S)
        → Shuts (main_connect_loop S ctx (suc inner) (suc fuel) s)
    unfolding main_connect_loop connect_turn
    connect_loop-Shuts ctx inner fuel s =
        Shuts-after _ _
          (rw (healthy.sockets s.world) (
            Shuts-after _ _ (on_socket-Shuts ctx _ inner _)
              (λ t. (note_shutdown S 364 (codes "main_connect_loop") error_shutdown t, refl))))
          (λ t. Shuts-repeat _ t)

    on_context-Shuts :
        (ctx : S.Modbus) (inner : ℕ) (s : Monitor S) → Shuts (on_context S ctx (suc inner) s)
    unfolding on_context
    on_context-Shuts ctx inner s = rw (healthy.bus_open ctx) (
        Shuts-after _ _ (connect_loop-Shuts ctx inner inner _)
          (λ t. (record t { world = S.modbus_free ctx t.world }, refl)))

    bus_loop-Shuts : (inner fuel : ℕ) (s : Monitor S) → Shuts (bus_loop S (suc inner) (suc fuel) s)
    unfolding bus_loop bus_turn on_modbus_error
    bus_loop-Shuts inner fuel s =
        let (ctx, made) = healthy.bus s.world in
        rw made (
          Shuts-after _ _ (Shuts-after _ _ (on_context-Shuts ctx inner _) (λ t. (t, refl)))
            (λ t. Shuts-repeat _ t))

    -- Where the pipe of the signal handler can be read, the monitor comes back with `ERROR_SHUTDOWN` in the
    -- first turn of every loop, if there is memory, the bus, the resolver, the server and the clock answer,
    -- and a read of the register takes less than a minute.
    pub main_modbus-Shuts :
        (inner fuel : ℕ) (s : Monitor S) → Shuts (main_modbus S (suc inner) (suc fuel) s)
    unfolding main_modbus
    main_modbus-Shuts inner fuel s = rw (healthy.memory 3200 s.world) (
        Shuts-after _ _
          (Shuts-after _ _ (bus_loop-Shuts inner fuel _)
            (λ t. (record t { world = S.free t.world }, refl)))
          (λ t. (note_shutdown S 436 (codes "main_modbus") error_shutdown t, refl)))
