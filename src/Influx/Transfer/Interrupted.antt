-- ===== src/Influx/Transfer/Interrupted.antt =====
-- A `select` that fails in the exchange with the server (renogy_influx/renogy_influx.c,
-- `main_send_recv_loop`).
use renogy_x.Base.{ℕ, suc}
use renogy_x.Base.{◌≡◌, refl, ap, ◌∙◌, arith}
use renogy_x.Base.{true, false, some, [], ◌∷◌}
use renogy_x.Base.{ℤ, pos, ltb_ℤ, ◌==ℤ◌, codes, fd_isset, Selected}
use renogy_x.Influx.System.{System}
use renogy_x.Influx.Log.{get_mstime, log_info}
use renogy_x.Influx.Env.{error_shutdown, Monitor, logln0}
use renogy_x.Influx.Transfer.Loop.{
  Progress, wait_of, leave, Part, on_failure, on_ready, select_call, on_wait, send_recv_round,
  next_turn, send_recv_turns, main_send_recv_loop,
}

-- The second of two descriptors is in their set.
fd_isset_second : (a b : ℤ) → fd_isset b (a ∷ b ∷ []) ≡ true
fd_isset_second a b = ground arith

below_zero : (z : ℤ) → ltb_ℤ z (pos 0) ≡ true → ((z ==ℤ pos 0) ≡ false) × (ltb_ℤ z (pos 1) ≡ true)
below_zero z h = (ground arith, ground arith)

module _ (S : System) where
  abbrev first : Progress
  first = record { buffer_out_sent = 0; buffer_in_read = 0 }

  -- The state at the first wait: the answer is cleared, and the clock read.
  abbrev pub waiting : Monitor S → Monitor S
  waiting s = record s {
    buffers = record (s.buffers) { buffer_in = [] };
    world = (get_mstime S s.world).1;
  }

  -- The first `select` of the exchange.
  abbrev pub first_select : ℤ → ℤ → Monitor S → Selected × S.World
  first_select sck wait_mstime s = select_call S sck wait_mstime first (waiting s)

  -- What is written to the log, and the exchange is over.
  abbrev shut : S.World → Monitor S → Part S
  shut w s = (
    leave error_shutdown,
    logln0 S log_info 191 (codes "main_send_recv_loop") (codes "term set, shutting down")
        (on_failure S (record s { world = w })),
  )

  failed_wait :
      (sck wait_mstime : ℤ) (p : Progress) (s : Monitor S)
      → let call = select_call S sck wait_mstime p s in
        ltb_ℤ call.0.rv (pos 0) ≡ true
        → call.0.rfds ≡ sck ∷ s.term_pipe ∷ []
        → on_wait S sck wait_mstime p s ≡ shut call.1 s
  unfolding on_wait on_ready on_failure logln0
  failed_wait sck wait_mstime p s failed kept =
      let (waited, bad) = below_zero (select_call S sck wait_mstime p s).0.rv failed in
      let seen : fd_isset s.term_pipe (select_call S sck wait_mstime p s).0.rfds ≡ true =
        ap (fd_isset s.term_pipe) kept ∙ fd_isset_second sck s.term_pipe in
      rw (waited, bad, seen) refl

  failed_turn :
      (sck end_send_time now : ℤ) (fuel : ℕ) (p : Progress) (s : Monitor S)
      → (get_mstime S s.world).0 ≡ some now
      → ltb_ℤ (wait_of end_send_time now) (pos 0) ≡ false
      → (w : S.World) (t : Monitor S)
      → on_wait S sck (wait_of end_send_time now) p (record s { world = (get_mstime S s.world).1 })
        ≡ shut w t
      → send_recv_turns S sck end_send_time (suc fuel) p s ≡ some (error_shutdown, (shut w t).1)
  unfolding send_recv_turns send_recv_round next_turn get_mstime
  failed_turn sck end_send_time now fuel p s read early w t e = rw (read, early) (rw e refl)

  -- A first `select` that fails and leaves its sets as they were ends the exchange with
  -- `ERROR_SHUTDOWN`, whether the pipe can be read or not.
  pub failed_select_shuts :
      (sck end_send_time now : ℤ) (s : Monitor S)
      → (get_mstime S s.world).0 ≡ some now
      → ltb_ℤ (wait_of end_send_time now) (pos 0) ≡ false
      → let call = first_select sck (wait_of end_send_time now) s in
        ltb_ℤ call.0.rv (pos 0) ≡ true
        → call.0.rfds ≡ sck ∷ s.term_pipe ∷ []
        → (t : Monitor S) × (main_send_recv_loop S sck end_send_time s ≡ some (error_shutdown, t))
  unfolding main_send_recv_loop
  failed_select_shuts sck end_send_time now s read early failed kept =
      let t = waiting s in
      let w = (first_select sck (wait_of end_send_time now) s).1 in
      (
        (shut w t).1,
        failed_turn sck end_send_time now 3071 first
            (record s { buffers = record (s.buffers) { buffer_in = [] } }) read early w t
            (failed_wait sck (wait_of end_send_time now) first t failed kept),
      )
