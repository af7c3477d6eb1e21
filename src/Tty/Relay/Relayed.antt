-- ===== src/Tty/Relay/Relayed.antt =====
-- From tty_reader/tty_reader.zig through tty_reader/tty_reader_influx.zig to the queue for the server.
use mathlib.Core.Option
use renogy_x.Base.{ℕ, ◌≤◌}
use renogy_x.Base.{◌≡◌, refl, ap, sym, ◌∙◌}
use renogy_x.Base.{Option, none, some, List, [], ◌∷◌, ◌++◌, length}
use renogy_x.Tty.After.{bind_cong, bind_bind}
use renogy_x.Tty.Parse.{Parse, IsParse}
use renogy_x.Tty.Subscriber.{Info, serve, seen, between}
use renogy_x.Tty.Published.{Reading, AreRead, publish, handle_bodies, serve-publish}
use renogy_x.Tty.Relay.Settings.{Net}
use renogy_x.Tty.Relay.Points.{Relay, process_msg_table, process_msg}
use renogy_x.Tty.Relay.Tables.{Point, AreWords, post_all}
use renogy_x.Tty.Relay.Posted.{Device, range_of, points_of, process_msg-points_of}

-- What is read of a device that is known.
abbrev pub Known : Type 0
Known = Device × List ℕ

abbrev pub AreKnown : List Known → Type 0
AreKnown [] = Unit
AreKnown ((device, regs) ∷ rs) =
    (length regs ≡ (range_of device).count) × AreWords regs × AreKnown rs

-- As it is published.
abbrev reading_of : Known → Reading
reading_of (device, regs) = record {
  type1 = (range_of device).type;
  id = (range_of device).id;
  address = (range_of device).address;
  count = (range_of device).count;
  regs = regs;
}

abbrev pub readings_of : List Known → List Reading
readings_of [] = []
readings_of (r ∷ rs) = reading_of r ∷ readings_of rs

-- As it is posted.
abbrev pub all_points : List Known → List Point
all_points [] = []
all_points ((device, regs) ∷ rs) = points_of device regs ++ all_points rs

AreKnown-AreRead : (rs : List Known) → AreKnown rs → AreRead (readings_of rs)
AreKnown-AreRead [] h = tt
AreKnown-AreRead ((device, regs) ∷ rs) (size, words, h) = (size, AreKnown-AreRead rs h)

module _ (N : Net) where
  post_all-append :
      (xs ys : List Point) (info : Relay N)
      → post_all N (xs ++ ys) info ≡ (elim (post_all N xs info) as (λ _. Option (Relay N)) [
        | none ↦ none
        | some next ↦ post_all N ys next
      ])
  unfolding post_all
  post_all-append [] ys info = refl
  post_all-append ((table_name, (value, divisor)) ∷ xs) ys info =
      bind_cong (process_msg_table N table_name value divisor info) _ _
        (λ next. post_all-append xs ys next)
      ∙ bind_bind (process_msg_table N table_name value divisor info) (post_all N xs)
          (post_all N ys)

  module _ (P : Parse) (laws : IsParse P) where
    handle_bodies-post_all :
        (rs : List Known) (info : Relay N)
        → AreKnown rs
        → handle_bodies P (process_msg N P) (readings_of rs) info ≡ post_all N (all_points rs) info
    unfolding handle_bodies post_all
    handle_bodies-post_all [] info h = refl
    handle_bodies-post_all ((device, regs) ∷ rs) info (size, words, h) =
        ap
          (λ o. elim o as (λ _. Option (Relay N)) [
            | none ↦ none
            | some next ↦ handle_bodies P (process_msg N P) (readings_of rs) next
          ])
          (process_msg-points_of N P laws device regs info size words)
        ∙ bind_cong (post_all N (points_of device regs) info) _ _
            (λ next. handle_bodies-post_all rs next h)
        ∙ sym (post_all-append (points_of device regs) (all_points rs) info)

    -- What is published of devices that are known, however the connection cuts it, makes a subscriber that
    -- waits for a header queue a request for each of their points, in order and with the values of the
    -- registers, until one does not fit, and then wait for a header again, within as many calls as
    -- there are bytes.
    pub serve-post_all :
        (pick : ℕ → ℕ) (fuel : ℕ) (rs : List Known) (stream : List ℕ) (info : Info (Relay N))
        → AreKnown rs
        → publish P (readings_of rs) ≡ some stream
        → info.buffer ≡ []
        → info.to_read ≡ 4
        → length stream ≤ fuel
        → Option.map seen (serve P (process_msg N P) pick fuel stream info)
          ≡ Option.map between (post_all N (all_points rs) info.app)
    serve-post_all pick fuel rs stream info h e empty header enough =
        serve-publish P laws (process_msg N P) pick fuel (readings_of rs) stream info
          (AreKnown-AreRead rs h) e empty header enough
        ∙ ap (Option.map between) (handle_bodies-post_all rs info.app h)
