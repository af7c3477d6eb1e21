-- ===== src/Tty/Subscriber.antt =====
-- Putting the messages together again: `process_csck_in`, which tty_reader/tty_reader_heyu.zig and
-- tty_reader/tty_reader_influx.zig share word by word.
use renogy_x.Base.{ℕ, zero, suc, ◌-◌, leb, ◌==◌}
use Prim.Native.Nat.{min}
use renogy_x.Base.{if◌then◌else◌}
use renogy_x.Base.{true, false, Option, none, some, List, [], ◌∷◌, ◌++◌}
use renogy_x.Base.{length, take, drop}
use renogy_x.Tty.Parse.{Parse}

-- The fields of `info_t` that `process_csck_in` uses. `buffer` is what is received of the message at
-- hand, `readed` bytes of it; `app` is what `process_msg` works on.
pub record Info (App : Type 0) : Type 0 where
  pub code : ℕ
  pub size : ℕ
  pub to_read : ℕ
  pub buffer : List ℕ
  pub app : App

-- What a subscriber has at hand: the received bytes, how far it reads, and what it works on.
abbrev pub seen : {App : Type 0} → Info App → List ℕ × (ℕ × App)
seen info = (info.buffer, (info.to_read, info.app))

-- It waits for a header.
abbrev pub between : {App : Type 0} → App → List ℕ × (ℕ × App)
between app = ([], (4, app))

module _ (P : Parse) {App : Type 0} (process_msg : List ℕ → App → Option App) where
  -- The header is complete. A size that leaves nothing to read is an error. The buffer has 64 KiB, so
  -- that four bytes can always be read and a message of 16 bits always fits.
  unfoldable pub on_header : Info App → Option (Info App)
  on_header info =
      let (code, rest) = P.in_u16_le info.buffer in
      let size = (P.in_u16_le rest).0 in
      if leb size 4 then none else some (record info { code = code; size = size; to_read = size })

  -- The message is complete.
  unfoldable pub on_message : Info App → Option (Info App)
  on_message info =
      elim (if info.code == 0 then process_msg (drop 4 info.buffer) info.app else some info.app) [
        | none ↦ none
        | some app ↦ some (record info { buffer = []; to_read = 4; app = app })
      ]

  -- `got` is what `recv` returns, an empty list where the connection is closed. `none` is an error.
  unfoldable pub process_csck_in : List ℕ → Info App → Option (Info App)
  unfolding on_header on_message
  process_csck_in [] info = none
  process_csck_in (b ∷ got) info =
      let next = record info { buffer = info.buffer ++ (b ∷ got) } in
      elim (length next.buffer == info.to_read) [
        | false ↦ some next
        | true ↦ elim (info.to_read == 4) [ true ↦ on_header next | false ↦ on_message next ]
      ]

  -- The connection as `recv` reads it: `pick` says how many bytes more than one are there at most, and
  -- the call is given those that fit. `fuel` bounds the calls; the length of the stream is enough.
  unfoldable pub serve : (ℕ → ℕ) → ℕ → List ℕ → Info App → Option (Info App)
  unfolding process_csck_in
  serve pick fuel [] info = some info
  serve pick zero (b ∷ stream) info = none
  serve pick (suc fuel) (b ∷ stream) info =
      let n = min (info.to_read - length info.buffer) (suc (pick fuel)) in
      elim (process_csck_in (take n (b ∷ stream)) info) [
        | none ↦ none
        | some next ↦ serve pick fuel (drop n (b ∷ stream)) next
      ]
