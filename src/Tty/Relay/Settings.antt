-- ===== src/Tty/Relay/Settings.antt =====
-- The settings and the state of tty_reader/tty_reader_influx.zig: `influx_info_t` and `info_t`.
use renogy_x.Base.{ℕ, Bool, Option, List, ℤ}
use renogy_x.Tty.Peers.{Send}

-- The fields of `influx_info_t` for the server.
pub record Settings : Type 0 where
  pub influx_hostname : List ℕ
  pub influx_port : ℕ
  pub influx_database : List ℕ
  pub influx_org : List ℕ
  pub influx_token : List ℕ
  pub influx_host_tag : List ℕ

-- The fields of `info_t` for the server, the settings, and the world. `isck` is none for -1, and `queue`
-- is the list from `send_head` to `send_tail`.
pub record Client (World : Type 0) : Type 0 where
  pub isck : Option ℤ
  pub connecting : Bool
  pub queue : List Send
  pub settings : Settings
  pub world : World

-- How the try to connect in `connect_isck` ends: before there is a socket, with an error on a socket, or
-- with a socket that is connected or will be.
pub data Attempt : Type 0 where
  no_socket : Attempt
  refused made : ℤ → Attempt

-- What the program calls. `fixed` is a value, divided as an `f32` unless by 1, with two decimals; `send`
-- returns how much is taken, none for an error.
pub record Net : Type 1 where
  pub World : Type 0
  pub fixed : (value divisor : ℕ) → List ℕ
  pub attempt : Settings → World → Attempt × World
  pub close : ℤ → World → World
  pub send : ℤ → List ℕ → World → Option ℕ × World
