-- ===== src/Tty/Battery.antt =====
-- The battery's registers from tty_reader/tty_reader.zig to tty_reader/tty_reader_heyu.zig.
use renogy_x.Base.{ℕ, ◌^◌, ◌<◌, ◌≤◌}
use renogy_x.Base.{◌≡◌, arith}
use renogy_x.Base.{true, some, List, ◌∷◌, ◌++◌}
use renogy_x.Base.{length, length-append}
use renogy_x.Tty.Parse.{Parse, IsParse}
use renogy_x.Tty.Publisher.{out_regs, body}
use renogy_x.Tty.Charger.{House, Running, on_volts, on_battery, process_msg}

module _ (H : House) (P : Parse) (laws : IsParse P) where
  two_regs : (a b : ℕ) (regs : List ℕ) → 4 ≤ length (out_regs P (a ∷ b ∷ regs))
  unfolding out_regs
  two_regs a b regs = omega (
    arith,
    length-append (P.out_u16_le a) (P.out_u16_le b ++ out_regs P regs),
    length-append (P.out_u16_le b) (out_regs P regs),
    laws.size a,
    laws.size b,
  )

  second_reg :
      (a b : ℕ) (regs : List ℕ)
      → b < 2 ^ 16
      → P.in_u16_le (P.in_u8_skip 2 (out_regs P (a ∷ b ∷ regs))) ≡ (b, out_regs P regs)
  unfolding out_regs
  second_reg a b regs h = cc (
    laws.skip 2 (P.out_u16_le a) (P.out_u16_le b ++ out_regs P regs) (laws.size a),
    laws.back b (out_regs P regs) h,
  )

  on_battery-out_regs :
      (a b : ℕ) (regs : List ℕ) (info : Running H)
      → b < 2 ^ 16
      → on_battery H P (out_regs P (a ∷ b ∷ regs)) info ≡ some (on_volts H b info)
  unfolding on_battery
  on_battery-out_regs a b regs info h =
      ground (
        arith,
        laws.enough 4 (out_regs P (a ∷ b ∷ regs)) (two_regs a b regs),
        second_reg a b regs h,
      )

  body_enough : (regs : List ℕ) → P.check_rem 8 (body P 0 9 256 10 regs) ≡ true
  unfolding body
  body_enough regs = laws.enough 8 _ (
      omega (
        arith,
        length-append (P.out_u16_le 0)
            (P.out_u16_le 9 ++ (P.out_u16_le 256 ++ (P.out_u16_le 10 ++ out_regs P regs))),
        length-append (P.out_u16_le 9) (P.out_u16_le 256 ++ (P.out_u16_le 10 ++ out_regs P regs)),
        length-append (P.out_u16_le 256) (P.out_u16_le 10 ++ out_regs P regs),
        length-append (P.out_u16_le 10) (out_regs P regs),
        laws.size 0,
        laws.size 9,
        laws.size 256,
        laws.size 10,
      ))

  -- What is published of the registers from 256 on of device 9, ten of them, makes the subscriber judge
  -- the second of these registers.
  pub process_msg-body :
      (percent volts : ℕ) (regs : List ℕ) (info : Running H)
      → volts < 2 ^ 16
      → process_msg H P (body P 0 9 256 10 (percent ∷ volts ∷ regs)) info
        ≡ some (on_volts H volts info)
  unfolding process_msg body
  process_msg-body percent volts regs info h =
      let all = percent ∷ volts ∷ regs in
      let s4 = out_regs P all in
      let s3 = P.out_u16_le 10 ++ s4 in
      let s2 = P.out_u16_le 256 ++ s3 in
      let s1 = P.out_u16_le 9 ++ s2 in
      ground (
        arith,
        body_enough all,
        laws.back 0 s1 (omega arith),
        laws.back 9 s2 (omega arith),
        laws.back 256 s3 (omega arith),
        laws.back 10 s4 (omega arith),
        on_battery-out_regs percent volts regs info h,
      )
