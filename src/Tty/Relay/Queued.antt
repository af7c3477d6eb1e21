-- ===== src/Tty/Relay/Queued.antt =====
-- A message adds whole requests only (`process_msg` of tty_reader/tty_reader_influx.zig).
use renogy_x.Base.{ℕ, ◌==◌, Bool, ◌&&◌, if◌then◌else◌, List, Option, some, codes}
use renogy_x.Tty.After.{After, After-none, After-some, After-elim, After-if, After-bind}
use renogy_x.Tty.Parse.{Parse}
use renogy_x.Tty.Relay.Settings.{Net}
use renogy_x.Tty.Relay.Points.{
  Relay, Later, post, word, long, word_after, battery, dc_meter, thermometer, ac_meter, on_range,
  process_msg, finish,
}
use renogy_x.Tty.Relay.Streams.{IsWhole, process_msg_table-IsWhole}

module _ (N : Net) (stream : N.World → List ℕ) where
  -- What keeps the requests whole.
  abbrev Keeps : Later N → Type 0
  Keeps later =
      (s : List ℕ) (info : Relay N)
      → IsWhole N stream info
      → After (IsWhole N stream) (later s info)

  post-IsWhole :
      (table_name : List ℕ) (divisor : ℕ) (read : ℕ × List ℕ) (later : Later N)
      → Keeps later
      → (info : Relay N) → IsWhole N stream info
      → After (IsWhole N stream) (post N table_name divisor read info later)
  unfolding post
  post-IsWhole table_name divisor (value, s) later keeps info h =
      After-bind (IsWhole N stream) (IsWhole N stream) _ _
        (process_msg_table-IsWhole N stream table_name value divisor info h) (keeps s)

  module _ (P : Parse) where
    finish-Keeps : Keeps (finish N P)
    finish-Keeps s info h = After-some (IsWhole N stream) info h

    word-Keeps :
        (table_name : List ℕ) (divisor : ℕ) (later : Later N)
        → Keeps later
        → Keeps (λ s info. word N P table_name divisor s info later)
    unfolding word
    word-Keeps table_name divisor later keeps s info h =
        After-elim (IsWhole N stream) (P.check_rem 2 s) _ _
          (post-IsWhole table_name divisor _ later keeps info h) (After-none (IsWhole N stream))

    long-Keeps :
        (table_name : List ℕ) (divisor : ℕ) (later : Later N)
        → Keeps later
        → Keeps (λ s info. long N P table_name divisor s info later)
    unfolding long
    long-Keeps table_name divisor later keeps s info h =
        After-elim (IsWhole N stream) (P.check_rem 4 s) _ _
          (post-IsWhole table_name divisor _ later keeps info h) (After-none (IsWhole N stream))

    word_after-Keeps :
        (n : ℕ) (table_name : List ℕ) (divisor : ℕ) (later : Later N)
        → Keeps later
        → Keeps (λ s info. word_after N P n table_name divisor s info later)
    unfolding word_after
    word_after-Keeps n table_name divisor later keeps s info h =
        After-elim (IsWhole N stream) _ _ _ (post-IsWhole table_name divisor _ later keeps info h)
          (After-none (IsWhole N stream))

    battery-Keeps : Keeps (battery N P)
    unfolding battery
    battery-Keeps = word_after-Keeps 2 (codes "renogy_volts") 10 _ (
        word-Keeps (codes "renogy_amps") 100 _ (
          word_after-Keeps 8 (codes "renogy_pvvolts") 10 _ (
            word-Keeps (codes "renogy_pvamps") 100 _
              (word-Keeps (codes "renogy_pvwatts") 1 _ finish-Keeps))))

    dc_meter-Keeps : (volts amps watts : List ℕ) → Keeps (dc_meter N P volts amps watts)
    unfolding dc_meter
    dc_meter-Keeps volts amps watts =
        word-Keeps volts 100 _ (word-Keeps amps 100 _ (word-Keeps watts 10 _ finish-Keeps))

    thermometer-Keeps : Keeps (thermometer N P)
    unfolding thermometer
    thermometer-Keeps =
        word-Keeps (codes "temp11_temp") 10 _ (word-Keeps (codes "temp11_hum") 10 _ finish-Keeps)

    ac_meter-Keeps : (volts amps watts : List ℕ) → Keeps (ac_meter N P volts amps watts)
    unfolding ac_meter
    ac_meter-Keeps volts amps watts =
        word-Keeps volts 10 _ (long-Keeps amps 1000 _ (long-Keeps watts 10 _ finish-Keeps))

    on_range-Keeps : (type1 id address1 count : ℕ) → Keeps (on_range N P type1 id address1 count)
    unfolding on_range
    on_range-Keeps type1 id address1 count s info h =
        in_range (type1 == 0 && id == 9) (address1 == 256 && count == 10) _ _
          (battery-Keeps s info h)
          (in_range (type1 == 1 && id == 3) (address1 == 0 && count == 8) _ _
            (dc_meter-Keeps (codes "pzem3_volts") (codes "pzem3_amps") (codes "pzem3_watts") s info
              h)
            (in_range (type1 == 1 && id == 6) (address1 == 0 && count == 8) _ _
              (dc_meter-Keeps (codes "pzem6_volts") (codes "pzem6_amps") (codes "pzem6_watts") s
                info h)
              (in_range (type1 == 1 && id == 10) (address1 == 0 && count == 8) _ _
                (dc_meter-Keeps (codes "pzem10_volts") (codes "pzem10_amps") (codes "pzem10_watts")
                  s info h)
                (in_range (type1 == 1 && id == 11) (address1 == 1 && count == 2) _ _
                  (thermometer-Keeps s info h)
                  (in_range (type1 == 1 && id == 12) (address1 == 0 && count == 10) _ _
                    (ac_meter-Keeps (codes "pzem12_volts") (codes "pzem12_amps")
                      (codes "pzem12_watts") s info h)
                    (in_range (type1 == 1 && id == 13) (address1 == 0 && count == 10) _ _
                      (ac_meter-Keeps (codes "pzem13_volts") (codes "pzem13_amps")
                        (codes "pzem13_watts") s info h)
                      (same)))))))
      where
        W : Relay N → Type 0
        W = IsWhole N stream

        same : After W (some info)
        same = After-some W info h

        in_range :
            (device range : Bool) (x y : Option (Relay N))
            → After W x
            → After W y
            → After W (if device then (if range then x else some info) else y)
        in_range device range x y hx hy = After-if W device _ y (After-if W range x _ hx same) hy

    pub process_msg-IsWhole :
        (s : List ℕ) (info : Relay N)
        → IsWhole N stream info
        → After (IsWhole N stream) (process_msg N P s info)
    unfolding process_msg
    process_msg-IsWhole s info h =
        let r1 = P.in_u16_le s in
        let r2 = P.in_u16_le r1.1 in
        let r3 = P.in_u16_le r2.1 in
        let r4 = P.in_u16_le r3.1 in
        After-elim (IsWhole N stream) (P.check_rem 8 s) _ _
          (on_range-Keeps r1.0 r2.0 r3.0 r4.0 r4.1 info h) (After-none (IsWhole N stream))
