-- ===== src/Test1/Loop.antt =====
-- The rule for what a run of the client leaves true: its callbacks, a round and the loop of
-- libcm11a/test1.c.
use renogy_x.Base.{ℕ, zero, suc, ◌==◌}
use renogy_x.Base.{false, [], ◌∷◌}
use renogy_x.Base.{ℤ, pos, ◌==ℤ◌}
use renogy_x.Base.{FdSet, Timeval}
use renogy_x.Base.{
  pure, Post-if, Keeps, Keeps-bind, Keeps-then, Keeps-when, Keeps-pure, Keeps-modify,
}
use renogy_x.Cm11a.Device.{Host, State}
use renogy_x.Cm11a.Write.{libcm11a_write_data, libcm11a_write_data_crc}
use renogy_x.Cm11a.Wait.{libcm11a_check_wait_objs}
use renogy_x.Test1.Client.{
  Callback, test1_ready, test1_poll, test1_time, test1_ok, test1_not_ok, test1_done,
}
use renogy_x.Test1.Client.{client, state_start, state_sent_address, state_sent_command, state_done}
use renogy_x.Test1.Client.{put_first, phase, set_phase, send_command, send_address, Run}
use renogy_x.Test1.Client.{
  test1_interface_ready, test1_interface_poll, test1_time_request, test1_crc_ok, test1_crc_not_ok,
  test1_done_write,
}
use renogy_x.Test1.Client.{call_client, wait, main_loop_round, step, rounds, main_loop}

-- What the client has the driver send.
pub data Message : Type 0 where
  address command confirmation time_answer : Message

module _ (H : Host) where
  -- The calls that hand the messages over.
  abbrev pub hand : Message → Run H ℤ
  hand address = libcm11a_write_data_crc (client H) (0x04 ∷ 0x6E ∷ []) 2
  hand command = libcm11a_write_data_crc (client H) (0x06 ∷ 0x62 ∷ []) 2
  hand confirmation = libcm11a_write_data (client H) (0x00 ∷ []) 1
  hand time_answer = libcm11a_write_data (client H) (0x9B ∷ []) 1

  module _ (P : State (client H) → Type 0) where
    -- What a property has to withstand beside the driver's service of the port.
    pub record IsKept : Type 0 where
      pub of_phase :
          (s : State (client H)) (v : ℕ)
          → P s
          → P (record s { dev = record (s.dev) { user = put_first v s.dev.user } })
      pub of_wait :
          (s : State (client H)) (nfds : ℤ) (r w : FdSet) (t : Timeval)
          → P s
          → P (record s { world = (H.select nfds r w t s.world).1 })
      pub of_hand : (m : Message) → Keeps P (hand m)

    module _ (kept : IsKept) where
      set_phase-Keeps : (v : ℕ) → Keeps P (set_phase H v)
      set_phase-Keeps v = Keeps-modify P _ _ (λ s. kept.of_phase s v)

      send_command-Keeps : Keeps P (send_command H)
      unfolding send_command
      send_command-Keeps =
          Keeps-bind P _ _ (kept.of_hand command)
            (λ _. Keeps-then P _ _ (set_phase-Keeps state_sent_command) (Keeps-pure P (pos 0)))

      test1_interface_ready-Keeps : Keeps P (test1_interface_ready H)
      unfolding test1_interface_ready
      test1_interface_ready-Keeps s i =
          Post-if _ (phase H s == state_sent_address) _ _ (λ _. send_command-Keeps s i)
            (λ _.
              Post-if _ (phase H s == state_sent_command) _ _
                (λ _. Keeps-then P _ _ (set_phase-Keeps state_done) (Keeps-pure P (pos 0)) s i)
                (λ _. Keeps-pure P (pos 0) s i))

      pub call_client-Keeps : (f : Callback) → Keeps P (call_client H f)
      unfolding call_client test1_interface_poll test1_time_request test1_crc_ok test1_crc_not_ok
          test1_done_write
      call_client-Keeps test1_ready = test1_interface_ready-Keeps
      call_client-Keeps test1_poll = Keeps-pure P (pos 0)
      call_client-Keeps test1_time =
          Keeps-bind P _ _ (kept.of_hand time_answer) (λ _. Keeps-pure P (pos 0))
      call_client-Keeps test1_ok =
          Keeps-bind P _ _ (kept.of_hand confirmation) (λ _. Keeps-pure P (pos 0))
      call_client-Keeps test1_not_ok = Keeps-pure P (pos 0)
      call_client-Keeps test1_done = Keeps-pure P (pos 0)

      wait-Keeps : Keeps P (wait H)
      unfolding wait
      wait-Keeps = Keeps-modify P _ _ (λ s. kept.of_wait s _ _ _ _)

      send_address-Keeps : Keeps P (send_address H)
      unfolding send_address
      send_address-Keeps =
          Keeps-bind P _ _ (kept.of_hand address) (λ _. set_phase-Keeps state_sent_address)

      step-Keeps : Keeps P (step H)
      unfolding step
      step-Keeps s i =
          Keeps-bind P _ _
            (Keeps-when P (phase H s == state_start) (send_address H) (pure tt) send_address-Keeps
              (Keeps-pure P tt))
            (λ _ t. Keeps-pure P _ t) s i

      module _ (serve : Keeps P (libcm11a_check_wait_objs (client H) (call_client H))) where
        main_loop_round-Keeps : Keeps P (main_loop_round H)
        unfolding main_loop_round
        main_loop_round-Keeps = Keeps-then P _ _ wait-Keeps (
            Keeps-bind P _ _ serve
              (λ error. Keeps-when P (error ==ℤ pos 0) _ _ step-Keeps (Keeps-pure P false)))

        rounds-Keeps : (fuel : ℕ) → Keeps P (rounds H fuel)
        unfolding rounds
        rounds-Keeps zero = λ s i a s' e. cc e
        rounds-Keeps (suc fuel) =
            Keeps-bind P _ _ main_loop_round-Keeps
              (λ again. Keeps-when P again _ _ (rounds-Keeps fuel) (Keeps-pure P (pos 0)))

        -- What withstands the single steps withstands the loop.
        pub main_loop-Keeps : (fuel : ℕ) → Keeps P (main_loop H fuel)
        unfolding main_loop
        main_loop-Keeps fuel = Keeps-then P _ _ (set_phase-Keeps state_start) (rounds-Keeps fuel)
