-- ===== src/Tty/Tests.antt =====
-- Little-endian numbers, a house with a clock, and the theorems of Tty at concrete inputs.
mod Loop
mod Sessions
mod Relay
mod Prompt
use mathlib.Core.Option
use renogy_x.Base.{ℕ, ◌+◌, ◌*◌, ◌/◌, ◌%◌, ◌<◌, ltb, leb}
use renogy_x.Base.{◌≡◌, ◌↔◌, refl, ap, arith}
use renogy_x.Base.{true, false, Option, none, some, List, [], ◌∷◌, ◌++◌}
use renogy_x.Base.{length, take, drop, replicate, drop_first}
use renogy_x.Base.{pos, ◌+ℤ◌}
use renogy_x.Tty.Parse.{Parse, IsParse}
use renogy_x.Tty.Publisher.{out_regs, msg_size, body, message}
use renogy_x.Tty.Subscriber.{Info, on_header, on_message, process_csck_in, serve, seen, between}
use renogy_x.Tty.Published.{Reading, publish, handle_bodies, message_limit, serve-publish}
use renogy_x.Tty.Charger.{
  House, looking_for_low, Charger, switch_on, on_volts, switch_off, end_round, on_battery,
  process_msg, csck_can_recv, round, went, main_loop,
}
use renogy_x.Tty.InTurn.{Switched, on, off, InTurn, main_loop-InTurn, idle}
use renogy_x.Tty.Battery.{process_msg-body}
use renogy_x.Tty.Peers.{Peer, Event, added, writable}
use renogy_x.Tty.Peers.{add_send, advance, send_head, can_send, serve_peer}
use renogy_x.Tty.Queue.{pending, added_of, pending-serve_peer}

abbrev read_number : List ℕ → ℕ × List ℕ
read_number (a ∷ b ∷ rest) = (b * 256 + a, rest)
read_number _ = (0, [])

abbrev read_long : List ℕ → ℕ × List ℕ
read_long (a ∷ b ∷ c ∷ d ∷ rest) = ((d * 256 + c) * 65536 + (b * 256 + a), rest)
read_long _ = (0, [])

abbrev pub little_endian : Parse
little_endian = record {
  out_u16_le = λ n. n % 256 ∷ n / 256 ∷ [];
  in_u16_le = read_number;
  in_u32_le = read_long;
  in_u8_skip = drop;
  check_rem = λ n bs. leb n (length bs);
}

pub little_endian-IsParse : IsParse little_endian
little_endian-IsParse = record {
  size = λ n. refl;
  back = λ n rest h.
      let whole : n / 256 * 256 + n % 256 ≡ n = omega arith in ap (λ k. (k, rest)) whole;
  both = λ low high rest h h'.
      let whole : (high / 256 * 256 + high % 256) * 65536 + (low / 256 * 256 + low % 256)
          ≡ high * 65536 + low =
        omega arith in
      ap (λ k. (k, rest)) whole;
  skip = λ n bs rest h. drop_first n bs rest h;
  enough = λ n bs h. ground arith;
}

-- 25.0 volts, in the second of ten registers.
abbrev low : Reading
low = record { type1 = 0; id = 9; address = 256; count = 10; regs = 55 ∷ 250 ∷ replicate 8 0 }

-- The application keeps the bodies.
abbrev pub keep : List ℕ → List (List ℕ) → Option (List (List ℕ))
keep s kept = some (kept ++ (s ∷ []))

abbrev pub waiting : {App : Type 0} → App → Info App
waiting app = record { code = 0; size = 0; to_read = 4; buffer = []; app = app }

abbrev low_body : List ℕ
low_body = 0 ∷ 0 ∷ 9 ∷ 0 ∷ 0 ∷ 1 ∷ 10 ∷ 0 ∷ 55 ∷ 0 ∷ 250 ∷ 0 ∷ replicate 16 0

abbrev low_message : List ℕ
low_message = 0 ∷ 0 ∷ 32 ∷ 0 ∷ low_body

publish_runs : publish little_endian (low ∷ low ∷ []) ≡ some (low_message ++ low_message)
unfolding publish message msg_size body out_regs
publish_runs = refl

serve-publish_example :
    Option.map seen (serve little_endian keep (λ k. 2) 64 (low_message ++ low_message) (waiting []))
    ≡ Option.map between (handle_bodies little_endian keep (low ∷ low ∷ []) [])
serve-publish_example =
    serve-publish little_endian little_endian-IsParse keep (λ k. 2) 64 (low ∷ low ∷ [])
      (low_message ++ low_message) (waiting []) (refl, (refl, tt)) publish_runs refl refl
      (omega arith)

message_limit_runs : (message little_endian 0 9 256 125 (replicate 125 0) ≡ none) ↔ (121 < 125)
message_limit_runs = message_limit little_endian 0 9 256 125 (replicate 125 0)

pub record Home : Type 0 where
  pub clock : ℕ
  pub log : List Switched

abbrev pub home : House
home = record {
  World = Home;
  milli_timestamp = λ w. (pos w.clock, record w { clock = w.clock + 100 });
  charger_on = λ w. (true, record w { log = on ∷ w.log });
  charger_off = λ w. (true, record w { log = off ∷ w.log });
  is_low = λ volts. ltb volts 261;
  millis_on = pos 150;
}

abbrev pub started : Charger Home
started = record {
  state = looking_for_low;
  charger_on_time = pos 0;
  charger_off_time = pos 0;
  failed = false;
  world = record { clock = 0; log = [] };
}

abbrev over : Info (Charger Home)
over = record {
  code = 0;
  size = 32;
  to_read = 4;
  buffer = [];
  app = record {
    state = looking_for_low;
    charger_on_time = pos 0;
    charger_off_time = pos 150;
    failed = false;
    world = record { clock = 300; log = off ∷ on ∷ [] };
  };
}

-- The header, the body, and two rounds without a message.
abbrev pub events : List (Option (List ℕ))
events = some (take 4 low_message) ∷ some low_body ∷ none ∷ none ∷ []

main_loop_runs : main_loop home little_endian events (waiting started) ≡ went over
unfolding main_loop round csck_can_recv process_csck_in on_header on_message process_msg on_battery
    on_volts switch_on switch_off end_round ◌+ℤ◌
main_loop_runs = refl

main_loop-InTurn_example : InTurn looking_for_low (off ∷ on ∷ [])
main_loop-InTurn_example =
    main_loop-InTurn home (λ w. w.log)
      (record { of_time = λ w. refl; of_on = λ w e. refl; of_off = λ w e. refl }) little_endian
      events (waiting started) over idle main_loop_runs

process_msg-body_example :
    process_msg home little_endian (body little_endian 0 9 256 10 (55 ∷ 250 ∷ [])) started
    ≡ some (on_volts home 250 started)
process_msg-body_example =
    process_msg-body home little_endian little_endian-IsParse 55 250 [] started (omega arith)

-- Two messages, taken in pieces of two, two and one byte, the last of them left over.
abbrev happened : List Event
happened =
    added (1 ∷ 2 ∷ 3 ∷ []) ∷ writable 2 ∷ added (4 ∷ 5 ∷ 6 ∷ []) ∷ writable 7 ∷ writable 2 ∷ []

abbrev new_peer : Peer
new_peer = record { sck = pos 7; delme = false; queue = [] }

abbrev served : List ℕ × Peer
served = (
  1 ∷ 2 ∷ 3 ∷ 4 ∷ 5 ∷ [],
  record {
    sck = pos 7;
    delme = false;
    queue = record { sent = 2; out_data_slice = 4 ∷ 5 ∷ 6 ∷ [] } ∷ [];
  },
)

serve_peer_runs : serve_peer happened ([], new_peer) ≡ served
unfolding serve_peer can_send send_head advance add_send
serve_peer_runs = refl

pending-serve_peer_example :
    (serve_peer happened ([], new_peer)).0 ++ pending (serve_peer happened ([], new_peer)).1.queue
    ≡ ([] ++ pending []) ++ added_of happened
pending-serve_peer_example =
    pending-serve_peer happened [] new_peer (ap (λ o. o.1.delme) serve_peer_runs)
