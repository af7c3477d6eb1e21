-- ===== src/Tty/Tests/Sessions.antt =====
-- Runs of the sessions of tty_reader/tty_reader_heyu.zig.
use mathlib.Core.Option
use renogy_x.Base.{◌≡◌, refl}
use renogy_x.Base.{some, List, [], ◌∷◌, take}
use renogy_x.Base.{◌+ℤ◌, pos, true, false}
use renogy_x.Tty.Subscriber.{on_header, on_message, process_csck_in}
use renogy_x.Tty.Charger.{
  House, charging, Charger, switch_on, on_volts, switch_off, end_round, on_battery, process_msg,
  csck_can_recv, round, main_loop,
}
use renogy_x.Tty.InTurn.{on, off}
use renogy_x.Tty.Sessions.{Session, by_signal, by_reload, shut_down, main_sessions}
use renogy_x.Tty.Tests.{little_endian, waiting, Home, home, started, events}

-- A reload while the charger is on, and then the publisher closes the connection.
abbrev sessions : List Session
sessions =
    record { events = take 2 events; ending = by_reload true }
    ∷ record { events = some [] ∷ []; ending = by_signal }
    ∷ []

-- The state is not changed at the end.
abbrev ended : Charger Home
ended = record {
  state = charging;
  charger_on_time = pos 0;
  charger_off_time = pos 150;
  failed = false;
  world = record { clock = 200; log = off ∷ on ∷ [] };
}

-- If the new connection is not made, the charger stays on.
stays_on :
    Option.map
      (λ info. info.state)
      (main_sessions home little_endian
        (record { events = take 2 events; ending = by_reload false } ∷ [])
        (waiting started))
    ≡ some charging
unfolding main_sessions main_loop round csck_can_recv process_csck_in on_header on_message
    process_msg on_battery on_volts switch_on end_round ◌+ℤ◌
stays_on = refl

-- A command to switch off that cannot be run is not tried again, as the state is LookingForLow by then.
abbrev stuck : House
stuck = record home { charger_off = λ w. (false, w) }

off_fails :
    Option.map
      (λ info. info.world.log)
      (main_sessions stuck little_endian
        (record { events = events; ending = by_signal } ∷ [])
        (waiting started))
    ≡ some (on ∷ [])
unfolding main_sessions shut_down main_loop round csck_can_recv process_csck_in on_header on_message
    process_msg on_battery on_volts switch_on switch_off end_round ◌+ℤ◌
off_fails = refl
