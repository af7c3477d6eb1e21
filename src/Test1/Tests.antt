-- ===== src/Test1/Tests.antt =====
-- A simulated controller, a run of the client on it, and the client's theorems at concrete inputs.
use renogy_x.Base.{ℕ, ◌+◌, ◌*◌, ◌%◌, ◌==◌}
use renogy_x.Base.{◌≡◌, refl, arith, if◌then◌else◌}
use renogy_x.Base.{true, false, none, some, List, [], ◌∷◌, ◌++◌}
use renogy_x.Base.{length, take, drop, replicate}
use renogy_x.Base.{ℤ, pos, ◌+ℤ◌, timeval_of_ms}
use renogy_x.Cm11a.Device.{Host, State, call_pointer}
use renogy_x.Cm11a.Write.{crc_loop, libcm11a_write_data, libcm11a_write_data_crc}
use renogy_x.Cm11a.Wait.{
  fd_can_read, fd_can_write, on_byte, on_crc, on_signal, check_read, after_write,
}
use renogy_x.Cm11a.Wait.{send_data, check_write, libcm11a_check_wait_objs}
use renogy_x.Cm11a.Port.{libcm11a_create, libcm11a_destroy, open_port}
use renogy_x.Cm11a.Checksum.{sum}
use renogy_x.Cm11a.Invariant.{IsValid}
use renogy_x.Test1.Client.{
  Callback, test1_ready, test1_poll, test1_time, test1_ok, test1_not_ok, test1_done,
}
use renogy_x.Test1.Client.{client, state_start, state_sent_address, state_sent_command, state_done}
use renogy_x.Test1.Client.{send_command, send_address}
use renogy_x.Test1.Client.{test1_interface_ready, test1_crc_ok, test1_done_write}
use renogy_x.Test1.Client.{
  call_client, wait, main_loop_round, step, rounds, main_loop, desired_port,
}
use renogy_x.Test1.Client.{main}
-- The line to a controller that answers two bytes by their checksum, and one byte by its ready signal.
use renogy_x.Cm11a.Device.{Pointer}
use renogy_x.Test1.Safety.{main_loop-IsValid}
use renogy_x.Test1.Messages.{IsWhole, IsFramed, main_loop-IsFramed, encode_all}
use renogy_x.Test1.Phases.{IsWired}
use renogy_x.Test1.Rounds.{Advances, main_loop_round-Advances}
use renogy_x.Test1.Busy.{command_lost}

record Line : Type 0 where
  incoming : List ℕ
  outgoing : List ℕ
  ports : ℕ

abbrev serve_read : List ℕ → ℤ × ℕ
serve_read [] = (pos 0, 0)
serve_read (b ∷ _) = (pos 1, b)

abbrev answer : List ℕ → ℕ
answer bytes = if length bytes == 2 then sum bytes % 256 else 0x55

abbrev controller : Host
controller = record {
  World = Line;
  Handle = ℕ;
  App = Callback;
  select = λ nfds r w t l.
      (record { rv = pos (length r * (length l.incoming) + length w); rfds = r; wfds = w }, l);
  sp_get_port_by_name = λ name l. ((pos 0, 7), l);
  sp_open = λ p l. (pos 0, record l { ports = 1 });
  sp_set_baudrate = λ p n l. (pos 0, l);
  sp_set_stopbits = λ p n l. (pos 0, l);
  sp_set_parity_none = λ p l. (pos 0, l);
  sp_set_bits = λ p n l. (pos 0, l);
  sp_get_port_handle = λ p l. ((pos 0, pos 3), l);
  sp_close = λ p l. record l { ports = 0 };
  sp_blocking_read = λ p n t l. (serve_read l.incoming, record l { incoming = drop 1 l.incoming });
  sp_blocking_write = λ p bytes n t l. (
    pos n,
    record l {
      outgoing = l.outgoing ++ take n bytes;
      incoming = l.incoming ++ (answer (take n bytes) ∷ []);
    },
  );
  malloc = λ b n l. (true, l);
  free = λ b l. l;
}

abbrev quiet : Line
quiet = record { incoming = []; outgoing = []; ports = 0 }

-- The address and the command go out, each confirmed by a zero, and the port is closed.
main_runs :
    main controller 200 9 quiet
    ≡ some (pos 0, record quiet { outgoing = 0x04 ∷ 0x6E ∷ 0x00 ∷ 0x06 ∷ 0x62 ∷ 0x00 ∷ [] })
unfolding main main_loop rounds main_loop_round step send_address wait call_client test1_crc_ok
    test1_interface_ready test1_done_write send_command libcm11a_write_data libcm11a_create
    libcm11a_destroy open_port on_byte on_crc on_signal libcm11a_write_data_crc
    libcm11a_check_wait_objs check_read check_write fd_can_read fd_can_write send_data after_write
    call_pointer crc_loop ◌+ℤ◌ timeval_of_ms
main_runs = refl

-- The client at the start of its loop.
abbrev started : State (client controller)
started = record {
  dev = record {
    version = 1;
    fd = pos 3;
    want_crc = false;
    crc = 0;
    data_sent = 0;
    data_bytes = 0;
    data_buf = none;
    port = 7;
    port_name = some desired_port;
    user = state_start ∷ replicate 15 0;
    interface_ready = Pointer.app test1_ready;
    interface_poll = Pointer.app test1_poll;
    time_request = Pointer.app test1_time;
    crc_ok = Pointer.app test1_ok;
    crc_not_ok = Pointer.app test1_not_ok;
    done_write = Pointer.app test1_done;
  };
  world = quiet;
}

abbrev addressed : State (client controller)
addressed = record started {
  dev = record (started.dev) {
    want_crc = true;
    crc = 0x72;
    data_bytes = 2;
    data_buf = some (0x04 ∷ 0x6E ∷ []);
    user = state_sent_address ∷ replicate 15 0;
  };
}

abbrev finished : State (client controller)
finished = record {
  dev = record (started.dev) { crc = 0x68; user = state_done ∷ replicate 15 0 };
  world = record quiet { outgoing = 0x04 ∷ 0x6E ∷ 0x00 ∷ 0x06 ∷ 0x62 ∷ 0x00 ∷ [] };
}

round_runs : main_loop_round controller started ≡ some (true, addressed)
unfolding main_loop_round step send_address wait call_client libcm11a_write_data_crc
    libcm11a_check_wait_objs check_read check_write fd_can_read fd_can_write crc_loop ◌+ℤ◌
    timeval_of_ms
round_runs = refl

loop_runs : main_loop controller 9 started ≡ some (pos 0, finished)
unfolding main_loop rounds main_loop_round step send_address wait call_client test1_crc_ok
    test1_interface_ready test1_done_write send_command libcm11a_write_data on_byte on_crc on_signal
    libcm11a_write_data_crc libcm11a_check_wait_objs check_read check_write fd_can_read fd_can_write
    send_data after_write call_pointer crc_loop ◌+ℤ◌ timeval_of_ms
loop_runs = refl

main_loop-IsValid_runs : IsValid finished.dev
main_loop-IsValid_runs =
    main_loop-IsValid controller 9 started (omega arith) (pos 0) finished loop_runs

main_loop_round-Advances_example : IsWired controller addressed × Advances controller 1 true 2
main_loop_round-Advances_example =
    main_loop_round-Advances controller 1 started
      (
        record {
          ready = refl;
          poll = refl;
          time = refl;
          ok = refl;
          not_ok = refl;
          done = refl;
          words = omega arith;
        },
        refl,
      )
      true addressed round_runs

command_lost_runs :
    test1_interface_ready controller addressed
    ≡ some (
      pos 0,
      record addressed {
        dev = record (addressed.dev) { user = state_sent_command ∷ replicate 15 0 };
      },
    )
command_lost_runs = command_lost controller (0x04 ∷ 0x6E ∷ []) addressed refl refl

whole_line : IsWhole controller (λ l. l.outgoing)
whole_line = record {
  of_wire = record { of_write = λ p bytes n t l. refl; of_free = λ b l. refl };
  of_select = λ n r w t l. refl;
  of_read = λ p n t l. refl;
  of_malloc = λ b n l. refl;
  at_once = λ p bytes n t l h. refl;
}

main_loop-IsFramed_example : IsFramed controller (λ l. l.outgoing) finished
unfolding encode_all
main_loop-IsFramed_example =
    main_loop-IsFramed controller (λ l. l.outgoing) whole_line 9 started
      (record { messages = []; framed = refl; unsent = refl; size = refl }) (pos 0) finished
      loop_runs
