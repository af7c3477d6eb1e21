-- ===== src/Tty/Spacing.antt =====
-- The distance between two requests of tty_reader/tty_reader.zig (`check_modbus`).
use renogy_x.Base.{ℕ}
use renogy_x.Base.{◌≡◌}
use renogy_x.Base.{List}
use renogy_x.Tty.Parse.{Parse}
use renogy_x.Tty.Peers.{Peer}
use renogy_x.Tty.Requests.{Line, returned, Tty}
use renogy_x.Tty.Requests.{check_modbus}
use renogy_x.Tty.Times.{Request, Passes}

module _ (L : Line) (clock : L.World → ℕ) (asked : L.World → List Request) where
  -- What the program does beside `check_modbus`, as long as a peer is there and no signal to reload comes:
  -- it polls, and the peers and their queues change.
  pub data Serves (P : Parse) (first : Tty L P) : Tty L P → Type 0 where
    started : Serves P first first
    checked :
        (info next : Tty L P) (timeout : ℕ)
        → Serves P first info
        → check_modbus L P info ≡ returned timeout next
        → Serves P first next
    polled :
        (info : Tty L P) (peers : List Peer) (w : L.World)
        → Serves P first info
        → Passes L clock asked info.world w
        → Serves P first (record info { peer_list = peers; world = w })
