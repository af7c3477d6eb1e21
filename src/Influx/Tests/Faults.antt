-- ===== src/Influx/Tests/Faults.antt =====
-- The theorems on what the monitor holds and on a `select` that fails, at concrete inputs.
use renogy_x.Base.{◌≡◌, refl, arith}
use renogy_x.Base.{some}
use renogy_x.Base.{pos, negsuc}
use renogy_x.Influx.System.{System}
use renogy_x.Influx.Log.{get_mstime, tick_of}
use renogy_x.Influx.Env.{error_shutdown, Monitor}
use renogy_x.Influx.Held.{IsHeld}
use renogy_x.Influx.Transfer.Loop.{wait_of, main_send_recv_loop}
use renogy_x.Influx.Transfer.Interrupted.{failed_select_shuts}
use renogy_x.Influx.Monitor.Balance.{main_modbus_balance}
use renogy_x.Influx.Tests.{system, monitor, shut_down}

blocks-IsHeld : IsHeld system (λ w. w.blocks) (record { block = 1; socket = 0; context = 0 })
blocks-IsHeld = record {
  heap = record {
    of_malloc = λ n w. omega arith;
    of_free = λ w. omega arith;
    of_clock = λ w. refl;
    of_write = λ fd bytes w. refl;
    of_printf = λ bytes w. refl;
  };
  of_close = λ fd w. omega arith;
  of_socket = λ w. omega arith;
  of_new = λ w. omega arith;
  of_modbus_free = λ c w. omega arith;
  of_usleep = λ n w. refl;
  of_select = λ nfds r u t w. refl;
  of_recv = λ fd n w. refl;
  of_send = λ fd bytes w. refl;
  of_resolver = λ name w. refl;
  of_connect = λ fd ip port w. refl;
  of_recovery = λ c w. refl;
  of_slave = λ c id w. refl;
  of_modbus_connect = λ c w. refl;
  of_read = λ c a n w. refl;
}

sockets-IsHeld : IsHeld system (λ w. w.sockets) (record { block = 0; socket = 1; context = 0 })
sockets-IsHeld = record {
  heap = record {
    of_malloc = λ n w. omega arith;
    of_free = λ w. omega arith;
    of_clock = λ w. refl;
    of_write = λ fd bytes w. refl;
    of_printf = λ bytes w. refl;
  };
  of_close = λ fd w. omega arith;
  of_socket = λ w. omega arith;
  of_new = λ w. omega arith;
  of_modbus_free = λ c w. omega arith;
  of_usleep = λ n w. refl;
  of_select = λ nfds r u t w. refl;
  of_recv = λ fd n w. refl;
  of_send = λ fd bytes w. refl;
  of_resolver = λ name w. refl;
  of_connect = λ fd ip port w. refl;
  of_recovery = λ c w. refl;
  of_slave = λ c id w. refl;
  of_modbus_connect = λ c w. refl;
  of_read = λ c a n w. refl;
}

contexts-IsHeld : IsHeld system (λ w. w.contexts) (record { block = 0; socket = 0; context = 1 })
contexts-IsHeld = record {
  heap = record {
    of_malloc = λ n w. omega arith;
    of_free = λ w. omega arith;
    of_clock = λ w. refl;
    of_write = λ fd bytes w. refl;
    of_printf = λ bytes w. refl;
  };
  of_close = λ fd w. omega arith;
  of_socket = λ w. omega arith;
  of_new = λ w. omega arith;
  of_modbus_free = λ c w. omega arith;
  of_usleep = λ n w. refl;
  of_select = λ nfds r u t w. refl;
  of_recv = λ fd n w. refl;
  of_send = λ fd bytes w. refl;
  of_resolver = λ name w. refl;
  of_connect = λ fd ip port w. refl;
  of_recovery = λ c w. refl;
  of_slave = λ c id w. refl;
  of_modbus_connect = λ c w. refl;
  of_read = λ c a n w. refl;
}

main_modbus_balance_example :
    (shut_down.0.world.blocks ≡ 0)
    × (shut_down.0.world.sockets ≡ 0)
    × (shut_down.0.world.contexts ≡ 0)
main_modbus_balance_example =
    main_modbus_balance system (λ w. w.blocks) (λ w. w.sockets) (λ w. w.contexts)
      (record {
        of_blocks = blocks-IsHeld;
        of_sockets = sockets-IsHeld;
        of_contexts = contexts-IsHeld;
      })
      2 2 monitor shut_down.0 error_shutdown shut_down.1

-- The same world, in which each `select` is interrupted and leaves its sets as they were.
abbrev interrupted : System
interrupted = record system {
  select = λ nfds r w t v. (record { rv = negsuc 0; rfds = r; wfds = w }, v);
}

failed_select_shuts_example :
    (t : Monitor interrupted) × (main_send_recv_loop interrupted (pos 6) (pos 60000) monitor
      ≡ some (error_shutdown, t))
unfolding get_mstime wait_of tick_of
failed_select_shuts_example =
    failed_select_shuts interrupted (pos 6) (pos 60000) (pos 12345) monitor refl refl refl refl
