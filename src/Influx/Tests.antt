-- ===== src/Influx/Tests.antt =====
-- A concrete world for the monitor, and its theorems at inputs that meet their hypotheses.
mod Faults
use renogy_x.Influx.Monitor.Turns.{end_of, after}
use renogy_x.Influx.Monitor.Loops.{main_connect_loop, main_modbus}
use renogy_x.Base.{ℕ, ◌+◌, ◌-◌, ◌*◌, ◌<◌, ltb}
use renogy_x.Base.{◌≡◌, refl, ◌≢◌, ◌⊎◌, inl, inr, arith}
use renogy_x.Base.{true, false, none, some, [], ◌∷◌, ◌++◌}
use renogy_x.Base.{length}
use renogy_x.Base.{pos, negsuc, pos_part, neg_part}
use renogy_x.Base.{codes, decimal}
use renogy_x.Base.{FdSet, timeval_of_ms}
use renogy_x.Influx.System.{System}
use renogy_x.Influx.Log.{logln, get_mstime}
use renogy_x.Influx.Env.{ErrorCode, error_none, error_fatal, error_connect, error_shutdown, Monitor}
use renogy_x.Influx.Transfer.Loop.{wait_of, main_send_recv_loop}
use renogy_x.Influx.Env.{exit_code}
use renogy_x.Influx.Log.{initial_log, log_text}
use renogy_x.Influx.Log.Laws.{length-log_text, IsHeapCount, blocks-logln}
use renogy_x.Influx.Request.{buffer_out, buffer_out-well_formed, head_text}
use renogy_x.Influx.Clock.{wait_of-tick_of, timeval_of_ms_exact}
use renogy_x.Influx.Log.{tick_of}
use renogy_x.Influx.Transfer.Counters.{IsPosix, SomeIn}
use renogy_x.Influx.Transfer.Ends.{main_send_recv_loop_ends}
use renogy_x.Influx.Monitor.Codes.{main_modbus_codes, main_connect_loop_codes}
use renogy_x.Influx.Monitor.Shutdown.{
  IsSignalled, IsHealthy, Shuts, send_recv_signalled, connect_loop-Shuts, main_modbus-Shuts,
}
use renogy_x.Influx.Monitor.Unreachable.{IsUnreachable, main_connect_loop_unreachable}
use renogy_x.Influx.Main.Args.{printf_help, process_args, process_args-eq}
use renogy_x.Influx.Main.Start.{print_all, main, main_settings, with_pipe}
use renogy_x.Influx.Main.Status.{main_exit_codes}
use renogy_x.Base.{read_digits}

-- How many blocks, sockets and contexts are in use.
pub record Usage : Type 0 where
  pub blocks : ℕ
  pub sockets : ℕ
  pub contexts : ℕ

-- Every call succeeds, the clock stands still, and `select` finds all that it is asked for.
abbrev pub system : System
system = record {
  World = Usage;
  Modbus = ℕ;
  clock_gettime = λ w. (some (12, 345000000), w);
  malloc = λ n w. (true, record w { blocks = w.blocks + 1 });
  free = λ w. record w { blocks = w.blocks - 1 };
  open_file = λ name flags w. (pos 5, w);
  chmod = λ name mode w. (pos 0, w);
  close = λ fd w. record w { sockets = w.sockets - 1 };
  unlink = λ name w. w;
  rename = λ from to w. w;
  write = λ fd bytes w. (pos (length bytes), w);
  printf = λ bytes w. w;
  usleep = λ n w. w;
  errno = λ w. pos 4;
  strerror = λ e. codes "Interrupted system call";
  select = λ nfds r w t v. (record { rv = pos (length r + length w); rfds = r; wfds = w }, v);
  recv = λ fd n w. ((pos 0, []), w);
  send = λ fd bytes w. (pos (length bytes), w);
  socket = λ w. (pos 6, record w { sockets = w.sockets + 1 });
  gethostbyname = λ name w. (some (codes "10.0.0.1"), w);
  connect = λ fd ip port w. (pos 0, w);
  modbus_new_rtu = λ w. (some 1, record w { contexts = 1 + w.contexts });
  modbus_set_error_recovery = λ ctx w. (pos 0, w);
  modbus_set_slave = λ ctx id w. w;
  modbus_connect = λ ctx w. (pos 0, w);
  modbus_free = λ ctx w. record w { contexts = w.contexts - 1 };
  modbus_strerror = λ e. codes "none";
  modbus_read_registers = λ ctx a n w. ((pos 1, 131), w);
  signal = λ n w. (true, w);
  pipe = λ w. (some (pos 3, pos 4), w);
  fork = λ w. (pos 77, w);
  getpid = λ w. (78, w);
}

abbrev pub monitor : Monitor system
monitor = record {
  term_pipe = pos 3;
  term_pipe_out = pos 4;
  log = initial_log;
  buffers = record { buffer_out = buffer_out 131; buffer_con = []; buffer_in = []; influx_ip = [] };
  world = record { blocks = 0; sockets = 0; contexts = 0 };
}

SomeIn-self : (r w : FdSet) → ltb 0 (length r + length w) ≡ true → SomeIn r r ⊎ SomeIn w w
SomeIn-self [] [] h = cc
SomeIn-self [] (x ∷ w) h = inr (inl (ground arith))
SomeIn-self (x ∷ r) w h = inl (inl (ground arith))

system-IsPosix : IsPosix system
system-IsPosix = record {
  select_ready = λ nfds r w t v h. SomeIn-self r w (ground (arith, h));
  select_failed = λ nfds r w t v h. (refl, refl);
  recv_most = λ fd n v. (omega arith, refl);
  send_most = λ fd bytes v. omega arith;
}

system-IsSignalled : IsSignalled system
system-IsSignalled nfds sck pipe w t v = (ground arith, ground arith)

length-buffer_out : length (buffer_out 131) < 2048
length-buffer_out = (buffer_out-well_formed 131 (omega arith)).3

main_send_recv_loop_ends_example :
    (rv : ErrorCode) × (t : Monitor system) × (main_send_recv_loop system
        (pos 6)
        (pos 60000)
        monitor
      ≡ some (rv, t))
main_send_recv_loop_ends_example =
    main_send_recv_loop_ends system system-IsPosix (pos 6) (pos 60000) monitor length-buffer_out

buffer_out-well_formed_example :
    let body = codes "renogy,host=serverA value=" ++ (decimal 131 ++ codes "\n") in
    (buffer_out 131 ≡ head_text ++ (decimal (length body) ++ (codes "\r\n\r\n" ++ body)))
    × (read_digits 0 (decimal (length body)) ≡ length body)
    × (read_digits 0 (decimal 131) ≡ 131)
    × (length (buffer_out 131) < 2048)
buffer_out-well_formed_example = buffer_out-well_formed 131 (omega arith)

send_recv_signalled_runs : Shuts system (main_send_recv_loop system (pos 6) (pos 60000) monitor)
unfolding get_mstime wait_of tick_of
send_recv_signalled_runs =
    send_recv_signalled system system-IsSignalled (pos 6) (pos 60000) (pos 12345) monitor refl refl

system-IsHealthy : IsHealthy system
unfolding get_mstime wait_of tick_of end_of
system-IsHealthy = record {
  memory = λ n w. refl;
  bus = λ w. (1, refl);
  bus_open = λ ctx w. refl;
  bus_read = λ ctx a n w. refl;
  sockets = λ w. refl;
  resolver = λ name w. (codes "10.0.0.1", refl);
  server = λ sck ip port w. refl;
  in_time = λ ctx v. (pos 12345, pos 12345, refl, refl, refl);
}

main_modbus-Shuts_example : Shuts system (main_modbus system 2 2 monitor)
main_modbus-Shuts_example = main_modbus-Shuts system system-IsSignalled system-IsHealthy 1 1 monitor

pub shut_down : Shuts system (main_modbus system 2 2 monitor)
shut_down = main_modbus-Shuts system system-IsSignalled system-IsHealthy 1 1 monitor

connection_shut_down : Shuts system (main_connect_loop system 1 2 2 monitor)
connection_shut_down = connect_loop-Shuts system system-IsSignalled system-IsHealthy 1 1 1 monitor

main_modbus_codes_runs :
    (◌≡◌ {A = ErrorCode} error_shutdown error_fatal)
    ⊎ (◌≡◌ {A = ErrorCode} error_shutdown error_shutdown)
main_modbus_codes_runs = main_modbus_codes system 2 2 monitor shut_down.0 error_shutdown shut_down.1

connect_loop_codes_run : (error_shutdown ≢ error_none) × (error_shutdown ≢ error_connect)
connect_loop_codes_run =
    main_connect_loop_codes system 1 2 2 monitor connection_shut_down.0 error_shutdown
      connection_shut_down.1

-- The same world, with a server that refuses connections.
abbrev cut_off : System
cut_off = record system { connect = λ fd ip port w. (negsuc 0, w) }

cut_off-IsUnreachable : IsUnreachable cut_off
cut_off-IsUnreachable = record { sockets = λ w. refl; refused = λ sck ip port w. refl }

main_connect_loop_unreachable_example : main_connect_loop cut_off 1 3 100 monitor ≡ none
main_connect_loop_unreachable_example =
    main_connect_loop_unreachable cut_off cut_off-IsUnreachable 1 3 100 monitor

wait_of-tick_of_example :
    wait_of (end_of (tick_of 2147483 640000000)) (tick_of 2147493 648000000) ≡ pos 49992
wait_of-tick_of_example =
    wait_of-tick_of 2147483 640000000 2147493 648000000 10008 (omega arith) (omega arith)
      (omega arith) (omega arith)

timeval_of_ms_exact_runs :
    let t = timeval_of_ms (pos 59999) in
    (pos_part t.tv_sec * 1000000 + pos_part t.tv_usec ≡ 59999 * 1000)
    × (pos_part t.tv_usec < 1000000)
    × (neg_part t.tv_sec ≡ 0)
    × (neg_part t.tv_usec ≡ 0)
timeval_of_ms_exact_runs = timeval_of_ms_exact 59999 (omega arith)

length-log_text_example : length (log_text (pos 12345) 0 (codes "out of time")) < 2048
length-log_text_example = length-log_text (pos 12345) 0 (codes "out of time")

pub blocks-IsHeapCount : IsHeapCount system (λ w. w.blocks)
blocks-IsHeapCount = record {
  of_malloc = λ n w. refl;
  of_free = λ w. refl;
  of_clock = λ w. refl;
  of_write = λ fd bytes w. refl;
  of_printf = λ bytes w. refl;
}

blocks-logln_example :
    (logln system 0 (codes "out of time") initial_log monitor.world).1.blocks ≡ monitor.world.blocks
blocks-logln_example =
    blocks-logln system (λ w. w.blocks) blocks-IsHeapCount 0 (codes "out of time") initial_log
      monitor.world

process_args-eq_example :
    process_args
      (codes "renogy_influx" ∷ codes "-D" ∷ codes "-F" ∷ [])
      (record { log_filename = []; daemonize = false })
    ≡ some (record { log_filename = []; daemonize = true })
process_args-eq_example =
    process_args-eq (codes "renogy_influx") (codes "-D" ∷ codes "-F" ∷ [])
      (record { log_filename = []; daemonize = false })

-- Without arguments the program prints its help and comes back with 0.
main_exit_codes_example :
    (exit_code error_none ≡ 0) ⊎ ((exit_code error_none ≡ 1) ⊎ (exit_code error_none ≡ 4))
unfolding main with_pipe main_settings process_args after print_all printf_help
main_exit_codes_example =
    main_exit_codes system (codes "renogy_influx" ∷ []) 1 1 monitor monitor error_none refl
