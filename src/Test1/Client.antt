-- ===== src/Test1/Client.antt =====
-- The client's callbacks, its loop and `main` (libcm11a/test1.c). What it prints is left out.
use renogy_x.Base.{ℕ, zero, suc, ◌==◌}
use renogy_x.Base.{if◌then◌else◌}
use renogy_x.Base.{Bool, true, false, Option, none, some, List, [], ◌∷◌}
use renogy_x.Base.{ℤ, pos, ◌+ℤ◌, ltb_ℤ, ◌==ℤ◌}
use renogy_x.Base.{◌>>=◌, ◌>>◌, pure, fault, read_state, when}
use renogy_x.Base.{FdSet, timeval_of_ms}
use renogy_x.Cm11a.Device.{Pointer, Host, Device, State, Act, set_dev}
use renogy_x.Cm11a.Port.{failed, created, libcm11a_create, libcm11a_destroy}
use renogy_x.Cm11a.Write.{libcm11a_write_data, libcm11a_write_data_crc}
use renogy_x.Cm11a.Wait.{libcm11a_get_wait_objs_rw, libcm11a_check_wait_objs}

-- The functions that the client puts into the driver's struct.
pub data Callback : Type 0 where
  test1_ready test1_poll test1_time test1_ok test1_not_ok test1_done : Callback

-- The system as the client sees it.
abbrev pub client : Host → Host
client H = record H { App = Callback }

-- `STATE_START`, `STATE_SENT_ADDRESS`, `STATE_SENT_COMMAND`, `STATE_DONE`
abbrev pub state_start : ℕ
state_start = 1

abbrev pub state_sent_address : ℕ
state_sent_address = 2

abbrev pub state_sent_command : ℕ
state_sent_command = 3

abbrev pub state_done : ℕ
state_done = 4

-- `g_desired_port`
abbrev pub desired_port : List ℕ
desired_port = b'/' ∷ b'd' ∷ b'e' ∷ b'v' ∷ b'/' ∷ b't' ∷ b't' ∷ b'y' ∷ b'S' ∷ b'0' ∷ []

-- `user[0]`
abbrev pub first_word : List ℕ → ℕ
first_word [] = 0
first_word (u ∷ us) = u

abbrev pub put_first : ℕ → List ℕ → List ℕ
put_first v [] = []
put_first v (u ∷ us) = v ∷ us

module _ (H : Host) where
  abbrev pub Run : Type 0 → Type 0
  Run A = Act (client H) A

  abbrev pub phase : State (client H) → ℕ
  phase s = first_word s.dev.user

  abbrev pub set_phase : ℕ → Run (Unit {0})
  set_phase v = set_dev (client H) (λ d. record d { user = put_first v d.user })

  unfoldable pub test1_interface_poll : Run ℤ
  test1_interface_poll = pure (pos 0)

  unfoldable pub test1_time_request : Run ℤ
  test1_time_request = do libcm11a_write_data (client H) (0x9B ∷ []) 1; pure (pos 0)

  unfoldable pub test1_crc_ok : Run ℤ
  test1_crc_ok = do libcm11a_write_data (client H) (0x00 ∷ []) 1; pure (pos 0)

  unfoldable pub test1_crc_not_ok : Run ℤ
  test1_crc_not_ok = pure (pos 0)

  -- The result of handing the command over is not looked at.
  unfoldable pub send_command : Run ℤ
  send_command = do
    libcm11a_write_data_crc (client H) (0x06 ∷ 0x62 ∷ []) 2
    set_phase state_sent_command
    pure (pos 0)

  unfoldable pub test1_interface_ready : Run ℤ
  unfolding send_command
  test1_interface_ready s =
      if phase s == state_sent_address
      then send_command s
      else if phase s == state_sent_command
      then (set_phase state_done >> pure (pos 0)) s
      else some (pos 0, s)

  unfoldable pub test1_done_write : Run ℤ
  test1_done_write = pure (pos 0)

  unfoldable pub call_client : Callback → Run ℤ
  unfolding test1_interface_poll test1_time_request test1_crc_ok test1_crc_not_ok
      test1_interface_ready test1_done_write
  call_client test1_ready = test1_interface_ready
  call_client test1_poll = test1_interface_poll
  call_client test1_time = test1_time_request
  call_client test1_ok = test1_crc_ok
  call_client test1_not_ok = test1_crc_not_ok
  call_client test1_done = test1_done_write

  abbrev max_of : ℤ → FdSet → ℤ
  max_of m [] = m
  max_of m (fd ∷ fds) = max_of (if ltb_ℤ m fd then fd else m) fds

  -- `select` on what the driver waits for, at most a second. Its result is only printed.
  unfoldable pub wait : Run (Unit {0})
  unfolding timeval_of_ms
  wait s =
      let (robjs, wobjs) = libcm11a_get_wait_objs_rw (client H) s.dev ([], []) in
      let max_fd = max_of (max_of (pos 0) robjs) wobjs in
      let (_, w) = H.select (max_fd +ℤ pos 1) robjs wobjs (timeval_of_ms (pos 1000)) s.world in
      some (tt, record s { world = w })

  unfoldable pub send_address : Run (Unit {0})
  send_address = do
    libcm11a_write_data_crc (client H) (0x04 ∷ 0x6E ∷ []) 2
    set_phase state_sent_address

  -- The end of a round that served the port: the start hands the address over, whose result is not
  -- looked at, and the loop goes on unless it is done.
  unfoldable pub step : Run Bool
  unfolding send_address
  step = do
    s ← read_state
    when (phase s == state_start) send_address (pure tt)
    t ← read_state
    pure (if phase t == state_done then false else true)

  -- A round of the loop, and whether another follows.
  unfoldable pub main_loop_round : Run Bool
  main_loop_round = do
    wait
    error ← libcm11a_check_wait_objs (client H) call_client
    when (error ==ℤ pos 0) step (pure false)

  -- `fuel` bounds the rounds: the loop goes on for as long as the controller keeps silent.
  unfoldable pub rounds : ℕ → Run ℤ
  rounds zero = fault
  rounds (suc fuel) = do again ← main_loop_round; when again (rounds fuel) (pure (pos 0))

  unfoldable pub main_loop : ℕ → Run ℤ
  main_loop fuel = do set_phase state_start; rounds fuel

  -- The struct with the client's functions.
  abbrev pub wired : Device (client H) → Device (client H)
  wired d = record d {
    interface_ready = Pointer.app test1_ready;
    interface_poll = Pointer.app test1_poll;
    time_request = Pointer.app test1_time;
    crc_ok = Pointer.app test1_ok;
    crc_not_ok = Pointer.app test1_not_ok;
    done_write = Pointer.app test1_done;
  }

  -- What follows once the driver is created.
  abbrev serve : ℕ → Device (client H) → H.World → Option (ℤ × H.World)
  serve fuel d w = elim (main_loop fuel (record { dev = wired d; world = w })) [
    | none ↦ none
    | some (_, s) ↦ some (pos 0, (libcm11a_destroy (client H) (some s.dev) s.world).1)
  ]

  unfoldable pub main : ℕ → ℕ → H.World → Option (ℤ × H.World)
  unfolding main_loop
  main size fuel w = elim (libcm11a_create (client H) size (some desired_port) true w) [
    | none ↦ none
    | some (failed, w') ↦ some (pos 0, w')
    | some (created d, w') ↦ serve fuel d w'
  ]
