-- ===== src/Tty/Sessions.antt =====
-- `main` of tty_reader/tty_reader_heyu.zig from the first connection on: one call of `main_loop` after
-- the other.
use renogy_x.Base.{ℕ}
use renogy_x.Base.{Bool, true, false, not, Option, none, some, List, [], ◌∷◌}
use renogy_x.Tty.Parse.{Parse}
use renogy_x.Tty.Subscriber.{Info}
use renogy_x.Tty.Charger.{House, looking_for_low, charging, Running, went, stopped, main_loop}

-- How a call of `main_loop` ends that no error ends: by a signal to end, or by a signal to reload, and
-- then whether the new connection is made.
pub data Ending : Type 0 where
  by_signal : Ending
  by_reload : (connected : Bool) → Ending

-- What is received in the rounds of a call, and the signal that ends it.
pub record Session : Type 0 where
  pub events : List (Option (List ℕ))
  pub ending : Ending

module _ (H : House) where
  -- The end of `main`. The state stays as it is.
  unfoldable pub shut_down : Running H → Running H
  shut_down info = elim info.state [
    | looking_for_low ↦ info
    | charging ↦
        let (ok, w) = H.charger_off info.world in record info { failed = not ok; world = w }
  ]

  module _ (P : Parse) where
    -- `none` stands for a program that still runs. What is received of a message stays where it is when a
    -- new connection is made; if that fails, `main` returns at once.
    unfoldable pub main_sessions : List Session → Info (Running H) → Option (Running H)
    unfolding shut_down
    main_sessions [] info = none
    main_sessions (session ∷ sessions) info = elim (main_loop H P session.events info) [
      | stopped app ↦ some (shut_down app)
      | went next ↦ elim session.ending [
        | by_signal ↦ some (shut_down next.app)
        | by_reload connected ↦ elim connected [
          | true ↦ main_sessions sessions next
          | false ↦ some next.app
        ]
      ]
    ]
