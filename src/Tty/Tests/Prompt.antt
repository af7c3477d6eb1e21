-- ===== src/Tty/Tests/Prompt.antt =====
-- Turns of the loop of tty_reader/tty_reader.zig.
use renogy_x.Base.{◌<◌}
use renogy_x.Base.{◌≡◌, refl, arith}
use renogy_x.Base.{false, some, List, [], ◌∷◌}
use renogy_x.Base.{pos}
use renogy_x.Tty.Publisher.{out_regs, msg_size, body, message}
use renogy_x.Tty.Peers.{Peer, add_send}
use renogy_x.Tty.Devices.{IdInfo, beginning, next_device, look_at, next_fuel, get_next_id_info}
use renogy_x.Tty.Ranges.{ranges_from}
use renogy_x.Tty.Requests.{
  returned, Tty, add_to_peers, on_registers, read_range, process_tty_id_info, after_request,
  on_time, check_modbus,
}
use renogy_x.Tty.Turns.{made}
use renogy_x.Tty.Prompt.{turn, Turns, done, then, check_modbus_requests}
use renogy_x.Tty.Tests.{little_endian}
use renogy_x.Tty.Tests.Loop.{line}

-- One device, with one register.
abbrev device : IdInfo
device = record {
  id = 9;
  read_address = 256;
  read_count = 1;
  read_input_address = 0;
  read_input_count = 0;
}

abbrev peers : List Peer
peers = record { sck = pos 7; delme = false; queue = [] } ∷ []

-- At the end of a pass, before its time.
abbrev at_end : Tty line little_endian
at_end = record {
  item_mstime = 600;
  list_mstime = 5000;
  min_mstime = 500;
  id_list = device ∷ [];
  peer_list = peers;
  place = record { index = 1; sub_index = 0 };
  last_modbus_time = some 1000;
  next_modbus_time = some 2000;
  first_modbus_time = some 1500;
  world = record { clock = 1200; log = [] };
}

abbrev due : Tty line little_endian
due = record at_end { world = record { clock = 2000; log = [] } }

abbrev pass_over : Tty line little_endian
pass_over = record due {
  place = beginning;
  next_modbus_time = some 6500;
  first_modbus_time = some 6500;
}

abbrev pass_begins : Tty line little_endian
pass_begins = record pass_over { world = record { clock = 6500; log = [] } }

abbrev answered : Tty line little_endian
answered = record pass_begins {
  peer_list =
      record {
        sck = pos 7;
        delme = false;
        queue =
            record {
              sent = 0;
              out_data_slice = 0 ∷ 0 ∷ 14 ∷ 0 ∷ 0 ∷ 0 ∷ 9 ∷ 0 ∷ 0 ∷ 1 ∷ 1 ∷ 0 ∷ 7 ∷ 0 ∷ [];
            }
            ∷ [];
      }
      ∷ [];
  place = record { index = 0; sub_index = 1 };
  last_modbus_time = some 6520;
  next_modbus_time = some 7100;
  world = record { clock = 6520; log = (6500, 6520) ∷ [] };
}

-- The message is sent.
abbrev sent : Tty line little_endian
sent = record answered { peer_list = peers }

abbrev due_again : Tty line little_endian
due_again = record sent { world = record { clock = 7100; log = (6500, 6520) ∷ [] } }

not_yet : check_modbus line little_endian at_end ≡ returned 800 at_end
unfolding check_modbus
not_yet = refl

pass_ends : check_modbus line little_endian due ≡ returned 4500 pass_over
unfolding check_modbus on_time get_next_id_info next_fuel next_device
pass_ends = refl

asks : check_modbus line little_endian pass_begins ≡ returned 0 answered
unfolding check_modbus on_time after_request process_tty_id_info read_range on_registers
    add_to_peers get_next_id_info next_fuel next_device look_at message msg_size body out_regs
    add_send
asks = refl

not_again : check_modbus line little_endian sent ≡ returned 580 sent
unfolding check_modbus
not_again = refl

four_rounds : Turns line (λ w. w.clock) (λ w. w.log) little_endian 4 at_end due_again
four_rounds =
    then 3 at_end due due_again
      (turn 800 at_end peers due.world not_yet (omega arith, refl) (omega arith) refl)
      (then 2 due pass_begins due_again
        (turn 4500 pass_over peers pass_begins.world pass_ends (omega arith, refl) (omega arith)
          refl)
        (then 1 pass_begins sent due_again
          (turn 0 answered peers sent.world asks (omega arith, refl) (omega arith) refl)
          (then 0 sent due_again due_again
            (turn 580 sent peers due_again.world not_again (omega arith, refl) (omega arith) refl)
            (done due_again))))

one_range : ranges_from 0 (device ∷ []) ≡ (device, 1) ∷ []
unfolding ranges_from
one_range = refl

check_modbus_requests_example :
    made line (λ w. w.clock) (λ w. w.log) at_end.world
    < made line (λ w. w.clock) (λ w. w.log) due_again.world
check_modbus_requests_example =
    check_modbus_requests line (λ w. w.clock) (λ w. w.log) little_endian
      (record {
        of_time = λ w. ((omega arith, refl), refl);
        of_slave = λ id w. (omega arith, refl);
        of_read = λ a n w. (omega arith, refl);
        of_read_input = λ a n w. (omega arith, refl);
      })
      at_end due_again (device, 1) [] (omega arith) one_range four_rounds
