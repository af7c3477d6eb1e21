-- ===== src/Tty/Tests/Loop.antt =====
-- A line with a clock, and the theorems on the loop of the publisher at concrete inputs.
use mathlib.Core.List.{Perm}
use renogy_x.Base.{ℕ, ◌+◌, ◌<◌, ◌≤◌}
use renogy_x.Base.{◌≡◌, refl, arith}
use renogy_x.Base.{true, false, none, some, List, [], ◌∷◌, replicate}
use renogy_x.Base.{ℤ, pos}
use renogy_x.Tty.Publisher.{out_regs, msg_size, body, message}
use renogy_x.Tty.Peers.{Send, Peer, add_send}
use renogy_x.Tty.Devices.{IdInfo, beginning, next_device, look_at, next_fuel, get_next_id_info}
use renogy_x.Tty.Ranges.{ranges_from}
use renogy_x.Tty.Pass.{pass, pass-ranges}
use renogy_x.Tty.Requests.{
  Line, Outcome, returned, crashed, Tty, add_to_peers, on_registers, read_range,
  process_tty_id_info, after_request, on_time, check_modbus,
}
use renogy_x.Tty.Times.{Request}
use renogy_x.Tty.Loop.{Round, forgotten, remove_marked, before_poll, loop_round}
use renogy_x.Tty.Removal.{unmarked, remove_marked-unmarked}
use renogy_x.Tty.Rounds.{Returns, loop_round_places}
use renogy_x.Tty.Tests.{little_endian}

-- A device with two ranges, one with none and one with input registers only.
abbrev devices : List IdInfo
devices =
    record {
      id = 9;
      read_address = 256;
      read_count = 10;
      read_input_address = 0;
      read_input_count = 2;
    }
    ∷ record {
      id = 4;
      read_address = 0;
      read_count = 0;
      read_input_address = 0;
      read_input_count = 0;
    }
    ∷ record {
      id = 3;
      read_address = 0;
      read_count = 0;
      read_input_address = 0;
      read_input_count = 8;
    }
    ∷ []

pass-ranges_example : pass devices 4 beginning ≡ some (ranges_from 0 devices, beginning)
unfolding ranges_from
pass-ranges_example = pass-ranges devices 4 (omega arith)

-- The time, and the requests so far.
pub record Wire : Type 0 where
  pub clock : ℕ
  pub log : List Request

-- A request takes 20 milliseconds.
abbrev pub answer : ℕ → Wire → (ℤ × List ℕ) × Wire
answer n w =
    ((pos n, replicate n 7), record { clock = w.clock + 20; log = (w.clock, w.clock + 20) ∷ w.log })

abbrev pub line : Line
line = record {
  World = Wire;
  milli_timestamp = λ w. (w.clock, w);
  modbus_set_slave = λ id w. (pos 0, w);
  modbus_read_registers = λ a n w. answer n w;
  modbus_read_input_registers = λ a n w. answer n w;
}

abbrev peer : Peer
peer = record { sck = pos 7; delme = false; queue = [] }

abbrev at_start : Tty line little_endian
at_start = record {
  item_mstime = 600;
  list_mstime = 5000;
  min_mstime = 500;
  id_list = devices;
  peer_list = peer ∷ [];
  place = beginning;
  last_modbus_time = none;
  next_modbus_time = none;
  first_modbus_time = none;
  world = record { clock = 1000; log = [] };
}

abbrev queued : Send
queued = record {
  sent = 0;
  out_data_slice =
      0 ∷ 0 ∷ 32 ∷ 0 ∷ 0 ∷ 0 ∷ 9 ∷ 0 ∷ 0 ∷ 1 ∷ 10 ∷ 0 ∷ 7 ∷ 0 ∷ 7 ∷ 0 ∷ 7 ∷ 0 ∷ 7 ∷ 0 ∷ 7 ∷ 0 ∷ 7
      ∷ 0 ∷ 7 ∷ 0 ∷ 7 ∷ 0 ∷ 7 ∷ 0 ∷ 7 ∷ 0 ∷ [];
}

abbrev asked_once : Tty line little_endian
asked_once = record at_start {
  peer_list = record peer { queue = queued ∷ [] } ∷ [];
  place = record { index = 0; sub_index = 1 };
  last_modbus_time = some 1020;
  next_modbus_time = some 1600;
  world = record { clock = 1020; log = (1000, 1020) ∷ [] };
}

check_modbus_runs : check_modbus line little_endian at_start ≡ returned 0 asked_once
unfolding check_modbus on_time after_request process_tty_id_info read_range on_registers
    add_to_peers get_next_id_info next_fuel next_device look_at message msg_size body out_regs
    add_send
check_modbus_runs = refl

-- The connection is idle until a second request is due.
abbrev later : Tty line little_endian
later = record asked_once { world = record { clock = 1600; log = (1000, 1020) ∷ [] } }

-- The last peer leaves and another comes: the next request begins 1 ms after the one before has ended,
-- although the least distance is 500 ms.
abbrev left_alone : Tty line little_endian
left_alone = record asked_once {
  peer_list = [];
  world = record { clock = 1021; log = (1000, 1020) ∷ [] };
}

log_of : {A : Type 0} → Outcome (Tty line little_endian) A → List Request
log_of (returned a info) = info.world.log
log_of _ = []

requests_meet :
    log_of (
      check_modbus line little_endian
        (record (forgotten line little_endian left_alone) { peer_list = peer ∷ [] }))
    ≡ (1021, 1041) ∷ (1000, 1020) ∷ []
unfolding check_modbus on_time after_request process_tty_id_info read_range on_registers
    add_to_peers get_next_id_info next_fuel next_device look_at message msg_size body out_regs
    add_send log_of
requests_meet = refl

abbrev gone : Peer
gone = record { sck = pos 8; delme = true; queue = [] }

remove_marked-unmarked_example :
    Perm
      (remove_marked 4 (gone ∷ peer ∷ gone ∷ peer ∷ []))
      (unmarked (gone ∷ peer ∷ gone ∷ peer ∷ []))
remove_marked-unmarked_example = remove_marked-unmarked (gone ∷ peer ∷ gone ∷ peer ∷ [])

-- A connection comes while the only peer closes its own.
abbrev event : Round
event = record {
  term = false;
  hup = false;
  config = none;
  connection = some (pos 9);
  of_peer = λ fd. record { readable = true; read = 0; writable = false; accepts = 0 };
}

before_poll_runs : before_poll line little_endian at_start ≡ returned tt asked_once
unfolding before_poll
before_poll_runs = cc check_modbus_runs

loop_round_places_example :
    (1 ≤ 29 → Returns line little_endian event (loop_round line little_endian event at_start))
    × (29 < 1 → loop_round line little_endian event at_start ≡ crashed)
loop_round_places_example =
    loop_round_places line little_endian event at_start asked_once before_poll_runs
