-- ===== src/Tty/Tests/Relay.antt =====
-- Runs of tty_reader/tty_reader_influx.zig.
use Prim.Native.Nat.{min}
use mathlib.Core.Option
use renogy_x.Base.{ℕ, ◌/◌, ◌≡◌, refl, arith, pos}
use renogy_x.Base.{true, false, none, some, List, [], ◌∷◌, ◌++◌, length, take, replicate}
use renogy_x.Base.{codes, decimal}
use renogy_x.Tty.Publisher.{out_regs, msg_size, body, message}
use renogy_x.Tty.Peers.{left_after}
use renogy_x.Tty.Subscriber.{Info, on_header, on_message, process_csck_in, serve, seen, between}
use renogy_x.Tty.Relay.Settings.{Settings, Client, made, Net}
use renogy_x.Tty.Relay.Points.{
  line_text, request_text, request, process_msg_table, post, word, thermometer, on_range,
  process_msg,
}
use renogy_x.Tty.Relay.Server.{
  Found, shut, connect_isck, try_connect, send_first, process_isck_out, isck_can_send,
  isck_can_recv, on_server, clear_out_queue, reload_config, csck_can_recv, round, main_loop,
}
use renogy_x.Tty.Relay.Tables.{post_all}
use renogy_x.Tty.Relay.Posted.{temp11, points_of, process_msg-points_of}
use renogy_x.Tty.Relay.LongTag.{process_msg-none}
use renogy_x.Tty.Relay.Relayed.{readings_of, all_points, serve-post_all}
use renogy_x.Tty.Published.{publish}
use renogy_x.Tty.Relay.Streams.{IsClean}
use renogy_x.Tty.Relay.Connections.{main_loop-IsClean}
use renogy_x.Tty.Tests.{little_endian, little_endian-IsParse, waiting}

-- The world is what has gone out on the last connection. A send takes up to 100 bytes.
abbrev net : Net
net = record {
  World = List ℕ;
  fixed = λ value divisor. decimal (value / divisor) ++ codes ".00";
  attempt = λ settings w. (made (pos 5), []);
  close = λ sck w. w;
  send = λ sck bytes w. (some 100, w ++ take (min 100 (length bytes)) bytes);
}

abbrev of_tag : List ℕ → Settings
of_tag tag = record {
  influx_hostname = codes "a";
  influx_port = 1;
  influx_database = codes "b";
  influx_org = codes "c";
  influx_token = codes "d";
  influx_host_tag = tag;
}

abbrev fresh : Settings → Client (List ℕ)
fresh settings = record {
  isck = none;
  connecting = false;
  queue = [];
  settings = settings;
  world = [];
}

-- 21.5 degrees and 40.0 percent.
abbrev readings : List ℕ
readings = 215 ∷ 400 ∷ []

process_msg-points_of_runs :
    process_msg net little_endian
      (body little_endian 1 11 1 2 readings)
      (fresh (of_tag (codes "e")))
    ≡ post_all net (points_of temp11 readings) (fresh (of_tag (codes "e")))
process_msg-points_of_runs =
    process_msg-points_of net little_endian little_endian-IsParse temp11 readings
      (fresh (of_tag (codes "e"))) refl (omega arith)

process_msg-none_example :
    process_msg net little_endian
      (body little_endian 1 11 1 2 readings)
      (fresh (of_tag (replicate 40 97)))
    ≡ none
process_msg-none_example =
    process_msg-none net little_endian little_endian-IsParse temp11 readings
      (fresh (of_tag (replicate 40 97))) refl (omega arith) (omega arith)

-- The message of these readings.
abbrev sent : List ℕ
sent = 0 ∷ 0 ∷ 16 ∷ 0 ∷ 1 ∷ 0 ∷ 11 ∷ 0 ∷ 1 ∷ 0 ∷ 2 ∷ 0 ∷ 215 ∷ 0 ∷ 144 ∷ 1 ∷ []

publish_one : publish little_endian (readings_of ((temp11, readings) ∷ [])) ≡ some sent
unfolding publish message msg_size body out_regs
publish_one = refl

serve-post_all_example :
    Option.map seen (
      serve little_endian
        (process_msg net little_endian)
        (λ k. 2)
        16
        sent
        (waiting (fresh (of_tag (codes "e")))))
    ≡ Option.map between
        (post_all net (all_points ((temp11, readings) ∷ [])) (fresh (of_tag (codes "e"))))
serve-post_all_example =
    serve-post_all net little_endian little_endian-IsParse (λ k. 2) 16 ((temp11, readings) ∷ [])
      sent (waiting (fresh (of_tag (codes "e")))) (refl, omega arith, tt) publish_one refl refl
      (omega arith)

abbrev quiet : Found
quiet = record { reload = none; received = none; answered = none; writable = false }

-- The header, the rest of the message, and a part of the first request.
abbrev events : List Found
events =
    record quiet { received = some (0 ∷ 0 ∷ 16 ∷ 0 ∷ []) }
    ∷ record quiet {
      received = some (1 ∷ 0 ∷ 11 ∷ 0 ∷ 1 ∷ 0 ∷ 2 ∷ 0 ∷ 215 ∷ 0 ∷ 144 ∷ 1 ∷ []);
      writable = true;
    }
    ∷ []

abbrev text_of : List ℕ → List ℕ → List ℕ
text_of table_name value =
    request_text (of_tag (codes "e")) (line_text (of_tag (codes "e")) table_name value)

abbrev last : Info (Client (List ℕ))
last = record {
  code = 0;
  size = 16;
  to_read = 4;
  buffer = [];
  app = record {
    isck = some (pos 5);
    connecting = false;
    queue =
        record { sent = 100; out_data_slice = text_of (codes "temp11_temp") (codes "21.00") }
        ∷ record { sent = 0; out_data_slice = text_of (codes "temp11_hum") (codes "40.00") }
        ∷ [];
    settings = of_tag (codes "e");
    world = take 100 (text_of (codes "temp11_temp") (codes "21.00"));
  };
}

main_loop_runs :
    main_loop net little_endian events (waiting (fresh (of_tag (codes "e")))) ≡ some last
unfolding main_loop round csck_can_recv try_connect connect_isck shut process_csck_in on_header
    on_message process_msg on_range thermometer word post process_msg_table request line_text
    request_text on_server isck_can_send isck_can_recv process_isck_out send_first left_after
    clear_out_queue reload_config decimal
main_loop_runs = refl

main_loop-IsClean_example : IsClean net (λ w. w) last.app
main_loop-IsClean_example =
    main_loop-IsClean net (λ w. w)
      (record { of_made = λ settings w w' sck e. cc e; of_send = λ sck bytes w w' n e. cc e })
      little_endian events (waiting (fresh (of_tag (codes "e")))) last refl main_loop_runs
