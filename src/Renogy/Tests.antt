-- ===== src/Renogy/Tests.antt =====
-- A simulated controller, a run of the program on it, and the theorems at concrete inputs.
use renogy_x.Base.{ℕ, ◌+◌, ◌-◌, ◌*◌}
use renogy_x.Base.{◌≡◌, refl, arith}
use renogy_x.Base.{some, List, [], ◌∷◌, ◌++◌}
use renogy_x.Base.{pos}
use renogy_x.Modbus.Live.{IsLive}
use renogy_x.Modbus.Trace.{Request, IsTrace}
use renogy_x.Renogy.Session.{Report, Controller, read_register, read_loop, main}
use renogy_x.Renogy.Scan.{scan, trace-main, live-main}

-- The contexts in use, the lines printed, and the requests.
record Room : Type 0 where
  contexts : ℕ
  printed : List Report
  asked : List Request

abbrev ask : Request → Room → Room
ask r w = record w { asked = w.asked ++ (r ∷ []) }

-- Each register holds a hundred times its number.
abbrev controller : Controller
controller = record {
  World = Room;
  Context = ℕ;
  atoi = λ text. pos 0;
  modbus_new_rtu = λ name baud w. (some 5, record w { contexts = 1 + w.contexts });
  modbus_set_debug = λ c w. w;
  modbus_set_error_recovery = λ c w. w;
  modbus_set_slave = λ c i w. w;
  modbus_get_response_timeout = λ c w. w;
  modbus_connect = λ c w. (pos 0, w);
  modbus_free = λ c w. record w { contexts = w.contexts - 1 };
  modbus_write_register = λ c r v w. ask (Request.write r v) w;
  modbus_send_raw_request = λ c bytes w. ask (Request.raw bytes) w;
  modbus_receive = λ c w. w;
  modbus_read_registers = λ c a n w. ((pos 0, []), ask (Request.registers a n) w);
  modbus_read_input_registers = λ c a n w. ((pos n, (a * 100) ∷ []), ask (Request.inputs a n) w);
  usleep = λ n w. w;
  printf = λ r w. record w { printed = w.printed ++ (r ∷ []) };
}

abbrev empty : Room
empty = record { contexts = 0; printed = []; asked = [] }

-- The three last lines of a run.
read_runs :
    (read_loop controller 5 3 7 empty).printed
    ≡ Report.line 7 (pos 1) 700 ∷ Report.line 8 (pos 1) 800 ∷ Report.line 9 (pos 1) 900 ∷ []
unfolding read_loop read_register
read_runs = refl

controller-IsTrace : IsTrace controller (λ w. w.asked)
controller-IsTrace = record {
  unseen = record {
    of_debug = λ c w. refl;
    of_recovery = λ c w. refl;
    of_slave = λ c i w. refl;
    of_timeout = λ c w. refl;
    of_connect = λ c w. refl;
    of_receive = λ c w. refl;
    of_usleep = λ n w. refl;
    of_printf = λ r w. refl;
  };
  of_new = λ name baud w. refl;
  of_free = λ c w. refl;
  of_write = λ c r v w. refl;
  of_send = λ c bytes w. refl;
  of_registers = λ c a n w. refl;
  of_inputs = λ c a n w. refl;
}

controller-IsLive : IsLive controller (λ w. w.contexts)
controller-IsLive = record {
  unseen = record {
    of_debug = λ c w. refl;
    of_recovery = λ c w. refl;
    of_slave = λ c i w. refl;
    of_timeout = λ c w. refl;
    of_connect = λ c w. refl;
    of_receive = λ c w. refl;
    of_usleep = λ n w. refl;
    of_printf = λ r w. refl;
  };
  of_new = λ name baud w. refl;
  of_free = λ c w h. omega arith;
  of_write = λ c r v w. refl;
  of_send = λ c bytes w. refl;
  of_registers = λ c a n w. refl;
  of_inputs = λ c a n w. refl;
}

trace-main_example :
    ((main controller empty).0 ≡ 0) × ((main controller empty).1.asked ≡ [] ++ scan 10 0)
trace-main_example = trace-main controller (λ w. w.asked) controller-IsTrace 5 empty refl refl

live-main_run : (main controller empty).1.contexts ≡ 0
live-main_run = live-main controller (λ w. w.contexts) controller-IsLive empty
