-- ===== src/Pzem/Tests.antt =====
-- A simulated meter, a run of the program on it, and the theorems at concrete inputs.
use renogy_x.Base.{ℕ, zero, ◌+◌, ◌-◌, ◌*◌, ◌/◌, ◌%◌, ◌^◌, leb, ◌==◌, ◌&&◌, if◌then◌else◌}
use renogy_x.Base.{decimal, ◌-ℤ◌}
use renogy_x.Base.{◌≡◌, refl, arith}
use renogy_x.Base.{true, some, List, [], ◌∷◌, ◌++◌}
use renogy_x.Base.{ℤ, pos, negsuc, codes, wrap32, to_u32}
use renogy_x.Pzem.Meter.{Meter, Report, reading, reading_report, word}
use renogy_x.Pzem.Options.{Options, initial, take_option, parse_args}
use renogy_x.Pzem.Session.{set_up, reset, show_slave, read_once, read_loop, connected, main, pause}
use renogy_x.Pzem.Energy.{word-halves}
use renogy_x.Pzem.Balance.{main_balance}
use renogy_x.Modbus.Live.{IsLive}
use renogy_x.Modbus.Trace.{Request, IsTrace}
use renogy_x.Pzem.Requests.{requests_of, trace-session}
use renogy_x.Pzem.Session.{session}
use renogy_x.Pzem.Arguments.{arguments_of, parse_args-arguments_of}

-- The contexts in use, the lines printed, the pauses, and the requests.
record Room : Type 0 where
  contexts : ℕ
  printed : List Report
  pauses : List ℕ
  asked : List Request

-- Numbers are written in digits, behind a dash where they are negative.
abbrev show : ℤ → List ℕ
show (pos n) = decimal n
show (negsuc n) = b'-' ∷ decimal (n + 1)

-- The digits up to the first byte that is none.
abbrev digits : ℕ → List ℕ → ℕ
digits acc [] = acc
digits acc (d ∷ ds) =
    let more = digits (acc * 10 + (d - b'0')) ds in if leb b'0' d && leb d b'9' then more else acc

-- An `int`, which wraps.
abbrev read : List ℕ → ℤ
read [] = pos 0
read (d ∷ ds) =
    if d == b'-' then wrap32 (pos 0 -ℤ pos (digits 0 ds)) else wrap32 (pos (digits 0 (d ∷ ds)))

abbrev ask : Request → Room → Room
ask r w = record w { asked = w.asked ++ (r ∷ []) }

abbrev meter : Meter
meter = record {
  World = Room;
  Context = ℕ;
  atoi = read;
  modbus_new_rtu = λ name baud w. (some 5, record w { contexts = 1 + w.contexts });
  modbus_set_debug = λ c w. w;
  modbus_set_error_recovery = λ c w. w;
  modbus_set_slave = λ c i w. w;
  modbus_get_response_timeout = λ c w. w;
  modbus_connect = λ c w. (pos 0, w);
  modbus_free = λ c w. record w { contexts = w.contexts - 1 };
  modbus_write_register = λ c r v w. ask (Request.write r v) w;
  modbus_send_raw_request = λ c bytes w. ask (Request.raw bytes) w;
  modbus_receive = λ c w. w;
  modbus_read_registers = λ c a n w. ((pos 4, 1 ∷ 2 ∷ 3 ∷ 4 ∷ []), ask (Request.registers a n) w);
  modbus_read_input_registers = λ c a n w.
      ((pos 8, 1210 ∷ 150 ∷ 1815 ∷ 0 ∷ 7 ∷ 1 ∷ 0 ∷ 0xFFFF ∷ []), ask (Request.inputs a n) w);
  usleep = λ n w. record w { pauses = n ∷ w.pauses };
  printf = λ r w. record w { printed = w.printed ++ (r ∷ []) };
}

abbrev empty : Room
empty = record { contexts = 0; printed = []; pauses = []; asked = [] }

abbrev twice : List (List ℕ)
twice = codes "pzem" ∷ codes "--loop" ∷ codes "2" ∷ codes "3" ∷ []

-- Two readings with a pause of three seconds between them.
main_runs : main meter twice empty ≡ (
  0,
  record {
    contexts = 0;
    printed =
        reading 0 1210 150 (pos 1815) (pos 65543) 0 0xFFFF
        ∷ reading 1 1210 150 (pos 1815) (pos 65543) 0 0xFFFF
        ∷ [];
    pauses = 3000000 ∷ [];
    asked = Request.inputs 0 8 ∷ Request.inputs 0 8 ∷ [];
  },
)
unfolding main parse_args take_option set_up connected reset show_slave read_loop read_once
    reading_report word wrap32 pause to_u32 ◌-ℤ◌
main_runs = refl

word-halves_example : word (65543 % 2 ^ 16) (65543 / 2 ^ 16) ≡ pos 65543
word-halves_example = word-halves 65543 (omega arith)

abbrev chosen : Options
chosen = record initial { debug = true; loop = pos 12; loop_delay = negsuc 4; set_range = pos 2 }

parse_args-arguments_of_example :
    parse_args read zero (arguments_of show chosen) initial ≡ some chosen
unfolding decimal wrap32 ◌-ℤ◌
parse_args-arguments_of_example =
    parse_args-arguments_of read show chosen
      (record { of_id = refl; of_loop = refl; of_delay = refl; of_set_id = refl; of_range = refl })

meter-IsLive : IsLive meter (λ w. w.contexts)
meter-IsLive = record {
  unseen = record {
    of_debug = λ c w. refl;
    of_recovery = λ c w. refl;
    of_slave = λ c i w. refl;
    of_timeout = λ c w. refl;
    of_connect = λ c w. refl;
    of_receive = λ c w. refl;
    of_usleep = λ n w. refl;
    of_printf = λ r w. refl;
  };
  of_new = λ name baud w. refl;
  of_free = λ c w h. omega arith;
  of_write = λ c r v w. refl;
  of_send = λ c raw w. refl;
  of_registers = λ c a n w. refl;
  of_inputs = λ c a n w. refl;
}

main_balance_example : (main meter twice empty).1.contexts ≡ 0
main_balance_example = main_balance meter (λ w. w.contexts) meter-IsLive twice empty

meter-IsTrace : IsTrace meter (λ w. w.asked)
meter-IsTrace = record {
  unseen = record {
    of_debug = λ c w. refl;
    of_recovery = λ c w. refl;
    of_slave = λ c i w. refl;
    of_timeout = λ c w. refl;
    of_connect = λ c w. refl;
    of_receive = λ c w. refl;
    of_usleep = λ n w. refl;
    of_printf = λ r w. refl;
  };
  of_new = λ name baud w. refl;
  of_free = λ c w. refl;
  of_write = λ c r v w. refl;
  of_send = λ c bytes w. refl;
  of_registers = λ c a n w. refl;
  of_inputs = λ c a n w. refl;
}

-- A reset, the parameters and two readings.
abbrev thorough : Options
thorough = record initial { reset_energy = true; show_slave_params = true; loop = pos 2 }

trace-session_example :
    ((session meter (some thorough) empty).0 ≡ 0)
    × ((session meter (some thorough) empty).1.asked ≡ [] ++ requests_of thorough)
trace-session_example = trace-session meter (λ w. w.asked) meter-IsTrace 5 thorough empty refl refl
