-- ===== src/Tty/SwitchedOff.antt =====
-- The charger when tty_reader/tty_reader_heyu.zig ends.
use renogy_x.Base.{◌≡◌}
use renogy_x.Base.{true, false, List, [], ◌∷◌}
use renogy_x.Tty.Parse.{Parse}
use renogy_x.Tty.After.{After}
use renogy_x.Tty.Charger.{House, looking_for_low, Running}
use renogy_x.Tty.InTurn.{Switched, InTurn, IsListed, Turned}
use renogy_x.Tty.Sessions.{Ending, by_signal, by_reload, Session}

-- Each reload makes its connection.
abbrev Connects : Ending → Type 0
Connects by_signal = Unit
Connects (by_reload connected) = connected ≡ true

abbrev pub AllConnect : List Session → Type 0
AllConnect [] = Unit
AllConnect (session ∷ sessions) = Connects session.ending × AllConnect sessions

-- The commands can always be run.
pub record CanSwitch (H : House) : Type 0 where
  pub can_on : (w : H.World) → (H.charger_on w).0 ≡ true
  pub can_off : (w : H.World) → (H.charger_off w).0 ≡ true

module _ (H : House) (switches : H.World → List Switched) (laws : IsListed H switches)
    (can : CanSwitch H) where
  -- The charger is off, and was switched on and off in turn.
  abbrev pub IsOff : Running H → Type 0
  IsOff info = InTurn looking_for_low (switches info.world)

  -- No command failed.
  abbrev AllRan : Running H → Type 0
  AllRan info = Turned H switches info × (info.failed ≡ false)
