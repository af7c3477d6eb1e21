-- ===== src/Tty/Relay/Posted.antt =====
-- What tty_reader/tty_reader_influx.zig posts of what tty_reader/tty_reader.zig publishes.
use renogy_x.Base.{ℕ, ◌^◌, ◌<◌, ◌≤◌}
use renogy_x.Base.{◌≡◌, ◌∙◌, arith}
use renogy_x.Base.{List, [], ◌∷◌, ◌++◌, length, length-append, codes}
use renogy_x.Tty.Parse.{Parse, IsParse}
use renogy_x.Tty.Publisher.{out_regs, body}
use renogy_x.Tty.Relay.Settings.{Net}
use renogy_x.Tty.Relay.Points.{
  Relay, Later, word, long, word_after, battery, dc_meter, thermometer, ac_meter, on_range,
  process_msg, finish,
}
use renogy_x.Tty.Relay.Tables.{
  Point, reg, wide, AreWords, post_all, word-then, long-then, word_after-then, nil-post_all,
}

-- The devices that are known.
pub data Device : Type 0 where
  renogy pzem3 pzem6 pzem10 temp11 pzem12 pzem13 : Device

-- The range of its registers.
pub record Range : Type 0 where
  pub type : ℕ
  pub id : ℕ
  pub address : ℕ
  pub count : ℕ

abbrev pub range_of : Device → Range
range_of renogy = record { type = 0; id = 9; address = 256; count = 10 }
range_of pzem3 = record { type = 1; id = 3; address = 0; count = 8 }
range_of pzem6 = record { type = 1; id = 6; address = 0; count = 8 }
range_of pzem10 = record { type = 1; id = 10; address = 0; count = 8 }
range_of temp11 = record { type = 1; id = 11; address = 1; count = 2 }
range_of pzem12 = record { type = 1; id = 12; address = 0; count = 10 }
range_of pzem13 = record { type = 1; id = 13; address = 0; count = 10 }

abbrev dc_points : (volts amps watts : List ℕ) → List ℕ → List Point
dc_points volts amps watts regs =
    (volts, (reg 0 regs, 100)) ∷ (amps, (reg 1 regs, 100)) ∷ (watts, (reg 2 regs, 10)) ∷ []

abbrev ac_points : (volts amps watts : List ℕ) → List ℕ → List Point
ac_points volts amps watts regs =
    (volts, (reg 0 regs, 10)) ∷ (amps, (wide 1 regs, 1000)) ∷ (watts, (wide 3 regs, 10)) ∷ []

-- What is posted of the registers of a device.
abbrev pub points_of : Device → List ℕ → List Point
points_of renogy regs =
    (codes "renogy_volts", (reg 1 regs, 10))
    ∷ (codes "renogy_amps", (reg 2 regs, 100))
    ∷ (codes "renogy_pvvolts", (reg 7 regs, 10))
    ∷ (codes "renogy_pvamps", (reg 8 regs, 100))
    ∷ (codes "renogy_pvwatts", (reg 9 regs, 1))
    ∷ []
points_of pzem3 regs =
    dc_points (codes "pzem3_volts") (codes "pzem3_amps") (codes "pzem3_watts") regs
points_of pzem6 regs =
    dc_points (codes "pzem6_volts") (codes "pzem6_amps") (codes "pzem6_watts") regs
points_of pzem10 regs =
    dc_points (codes "pzem10_volts") (codes "pzem10_amps") (codes "pzem10_watts") regs
points_of temp11 regs =
    (codes "temp11_temp", (reg 0 regs, 10)) ∷ (codes "temp11_hum", (reg 1 regs, 10)) ∷ []
points_of pzem12 regs =
    ac_points (codes "pzem12_volts") (codes "pzem12_amps") (codes "pzem12_watts") regs
points_of pzem13 regs =
    ac_points (codes "pzem13_volts") (codes "pzem13_amps") (codes "pzem13_watts") regs

module _ (N : Net) (P : Parse) (laws : IsParse P) where
  battery-points :
      (regs : List ℕ) (info : Relay N)
      → length regs ≡ 10
      → AreWords regs
      → battery N P (out_regs P regs) info ≡ post_all N (points_of renogy regs) info
  unfolding battery
  battery-points regs info h words =
      let later5 : Later N = finish N P in
      let later4 : Later N = λ s info. word N P (codes "renogy_pvwatts") 1 s info later5 in
      let later3 : Later N = λ s info. word N P (codes "renogy_pvamps") 100 s info later4 in
      let later2 : Later N = λ s info. word_after N P 8 (codes "renogy_pvvolts") 10 s info later3 in
      let later1 : Later N = λ s info. word N P (codes "renogy_amps") 100 s info later2 in
      word_after-then N P laws 1 0 regs _ 10 info later1 _ (omega (arith, h)) words (λ info.
        word-then N P laws 2 regs _ 100 info later2 _ (omega (arith, h)) words (λ info.
          word_after-then N P laws 4 3 regs _ 10 info later3 _ (omega (arith, h)) words (λ info.
            word-then N P laws 8 regs _ 100 info later4 _ (omega (arith, h)) words (λ info.
              word-then N P laws 9 regs _ 1 info later5 [] (omega (arith, h)) words
                (nil-post_all N P laws)))))

  dc_meter-points :
      (volts amps watts regs : List ℕ) (info : Relay N)
      → length regs ≡ 8
      → AreWords regs
      → dc_meter N P volts amps watts (out_regs P regs) info
        ≡ post_all N (dc_points volts amps watts regs) info
  unfolding dc_meter
  dc_meter-points volts amps watts regs info h words =
      let later2 : Later N = λ s info. word N P watts 10 s info (finish N P) in
      let later1 : Later N = λ s info. word N P amps 100 s info later2 in
      word-then N P laws 0 regs volts 100 info later1 _ (omega (arith, h)) words (λ info.
        word-then N P laws 1 regs amps 100 info later2 _ (omega (arith, h)) words (λ info.
          word-then N P laws 2 regs watts 10 info (finish N P) [] (omega (arith, h)) words
            (nil-post_all N P laws)))

  thermometer-points :
      (regs : List ℕ) (info : Relay N)
      → length regs ≡ 2
      → AreWords regs
      → thermometer N P (out_regs P regs) info ≡ post_all N (points_of temp11 regs) info
  unfolding thermometer
  thermometer-points regs info h words =
      let later1 : Later N = λ s info. word N P (codes "temp11_hum") 10 s info (finish N P) in
      word-then N P laws 0 regs _ 10 info later1 _ (omega (arith, h)) words (λ info.
        word-then N P laws 1 regs _ 10 info (finish N P) [] (omega (arith, h)) words
          (nil-post_all N P laws))

  ac_meter-points :
      (volts amps watts regs : List ℕ) (info : Relay N)
      → length regs ≡ 10
      → AreWords regs
      → ac_meter N P volts amps watts (out_regs P regs) info
        ≡ post_all N (ac_points volts amps watts regs) info
  unfolding ac_meter
  ac_meter-points volts amps watts regs info h words =
      let later2 : Later N = λ s info. long N P watts 10 s info (finish N P) in
      let later1 : Later N = λ s info. long N P amps 1000 s info later2 in
      word-then N P laws 0 regs volts 10 info later1 _ (omega (arith, h)) words (λ info.
        long-then N P laws 1 regs amps 1000 info later2 _ (omega (arith, h)) words (λ info.
          long-then N P laws 3 regs watts 10 info (finish N P) [] (omega (arith, h)) words
            (nil-post_all N P laws)))

  on_range-points :
      (device : Device) (regs : List ℕ) (info : Relay N)
      → length regs ≡ (range_of device).count
      → AreWords regs
      → let r = range_of device in
        on_range N P r.type r.id r.address r.count (out_regs P regs) info
        ≡ post_all N (points_of device regs) info
  unfolding on_range
  on_range-points renogy regs info h words = battery-points regs info h words
  on_range-points pzem3 regs info h words = dc_meter-points _ _ _ regs info h words
  on_range-points pzem6 regs info h words = dc_meter-points _ _ _ regs info h words
  on_range-points pzem10 regs info h words = dc_meter-points _ _ _ regs info h words
  on_range-points temp11 regs info h words = thermometer-points regs info h words
  on_range-points pzem12 regs info h words = ac_meter-points _ _ _ regs info h words
  on_range-points pzem13 regs info h words = ac_meter-points _ _ _ regs info h words

  read_range :
      (type id address count : ℕ) (regs : List ℕ) (info : Relay N)
      → type < 2 ^ 16
      → id < 2 ^ 16
      → address < 2 ^ 16
      → count < 2 ^ 16
      → process_msg N P (body P type id address count regs) info
        ≡ on_range N P type id address count (out_regs P regs) info
  unfolding process_msg body
  read_range type id address count regs info h1 h2 h3 h4 =
      let s4 = out_regs P regs in
      let s3 = P.out_u16_le count ++ s4 in
      let s2 = P.out_u16_le address ++ s3 in
      let s1 = P.out_u16_le id ++ s2 in
      let whole : 8 ≤ length (P.out_u16_le type ++ s1) = omega (
        arith,
        length-append (P.out_u16_le type) s1,
        length-append (P.out_u16_le id) s2,
        length-append (P.out_u16_le address) s3,
        length-append (P.out_u16_le count) s4,
        laws.size type,
        laws.size id,
        laws.size address,
        laws.size count,
      ) in
      ground (
        arith,
        laws.enough 8 (P.out_u16_le type ++ s1) whole,
        laws.back type s1 h1,
        laws.back id s2 h2,
        laws.back address s3 h3,
        laws.back count s4 h4,
      )

  small_range :
      (device : Device)
      → let r = range_of device in
        (r.type < 2 ^ 16) × (r.id < 2 ^ 16) × (r.address < 2 ^ 16) × (r.count < 2 ^ 16)
  small_range renogy = omega arith
  small_range pzem3 = omega arith
  small_range pzem6 = omega arith
  small_range pzem10 = omega arith
  small_range temp11 = omega arith
  small_range pzem12 = omega arith
  small_range pzem13 = omega arith

  -- What is published of the registers of a device that is known makes the subscriber queue a request for
  -- each of the device's points, with the values of these registers, until one does not fit.
  pub process_msg-points_of :
      (device : Device) (regs : List ℕ) (info : Relay N)
      → length regs ≡ (range_of device).count
      → AreWords regs
      → let r = range_of device in
        process_msg N P (body P r.type r.id r.address r.count regs) info
        ≡ post_all N (points_of device regs) info
  process_msg-points_of device regs info h words =
      let (h1, h2, h3, h4) = small_range device in
      read_range _ _ _ _ regs info h1 h2 h3 h4 ∙ on_range-points device regs info h words
