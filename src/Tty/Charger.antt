-- ===== src/Tty/Charger.antt =====
-- The charger (tty_reader/tty_reader_heyu.zig): `process_msg`, which switches it on, and the rounds of
-- `main_loop`, which switch it off.
use renogy_x.Base.{ℕ, ◌==◌}
use renogy_x.Base.{Bool, true, false, not, ◌&&◌, Option, none, some, List, [], ◌∷◌}
use renogy_x.Base.{ℤ, ◌+ℤ◌, ltb_ℤ}
use renogy_x.Tty.Parse.{Parse}
use renogy_x.Tty.Subscriber.{Info, process_csck_in}

-- What the program calls, and its settings. `is_low` is the test of `volts`, a tenth of it as an `f32`,
-- against `low_voltage_on`; the commands say whether they could be run. Times are in milliseconds, far
-- from the bounds of an `i64`, and the time left to wait fits an `i32`.
pub record House : Type 1 where
  pub World : Type 0
  pub milli_timestamp : World → ℤ × World
  pub charger_on : World → Bool × World
  pub charger_off : World → Bool × World
  pub is_low : ℕ → Bool
  pub millis_on : ℤ

-- `state_t`
pub data ChargerState : Type 0 where
  looking_for_low charging : ChargerState

-- The fields of `info_t` for the charger, and the world. `failed` is the error of a command that cannot
-- be run, which the functions hand on to `main_loop`; the state has changed by then.
pub record Charger (World : Type 0) : Type 0 where
  pub state : ChargerState
  pub charger_on_time : ℤ
  pub charger_off_time : ℤ
  pub failed : Bool
  pub world : World

module _ (H : House) where
  abbrev pub Running : Type 0
  Running = Charger H.World

  -- A low voltage while the charger is off.
  unfoldable pub switch_on : Running → Running
  switch_on info =
      let (now, w) = H.milli_timestamp info.world in
      let (ok, w') = H.charger_on w in
      record {
        state = charging;
        charger_on_time = now;
        charger_off_time = now +ℤ H.millis_on;
        failed = not ok;
        world = w';
      }

  unfoldable pub on_volts : ℕ → Running → Running
  unfolding switch_on
  on_volts volts info = elim info.state [
    | charging ↦ info
    | looking_for_low ↦ elim (H.is_low volts) [ true ↦ switch_on info | false ↦ info ]
  ]

  unfoldable pub switch_off : Running → H.World → Running
  switch_off info w =
      let (ok, w') = H.charger_off w in
      record info { state = looking_for_low; failed = not ok; world = w' }

  -- The end of a round.
  unfoldable pub end_round : Running → Running
  unfolding switch_off
  end_round info = elim info.state [
    | looking_for_low ↦ info
    | charging ↦
        let (now, w) = H.milli_timestamp info.world in
        elim (ltb_ℤ now info.charger_off_time) [
          | true ↦ record info { world = w }
          | false ↦ switch_off info w
        ]
  ]

  -- How rounds end: they go on, or an error ends them.
  pub data Ran : Type 0 where
    went : Info Running → Ran
    stopped : Running → Ran

  module _ (P : Parse) where
    -- What follows the four numbers, in a message of the battery's registers.
    unfoldable pub on_battery : List ℕ → Running → Option Running
    unfolding on_volts
    on_battery rest info = elim (P.check_rem 4 rest) [
      | false ↦ none
      | true ↦ some (on_volts (P.in_u16_le (P.in_u8_skip 2 rest)).0 info)
    ]

    unfoldable pub process_msg : List ℕ → Running → Option Running
    unfolding on_battery
    process_msg s info = elim (P.check_rem 8 s) [
      | false ↦ none
      | true ↦
          let (type1, s1) = P.in_u16_le s in
          let (id, s2) = P.in_u16_le s1 in
          let (address1, s3) = P.in_u16_le s2 in
          let (count, s4) = P.in_u16_le s3 in
          elim ((type1 == 0 && id == 9) && (address1 == 256 && count == 10)) [
            | false ↦ some info
            | true ↦ on_battery s4 info
          ]
    ]

    -- `got` is what was received, if the connection could be read.
    unfoldable pub csck_can_recv : Option (List ℕ) → Info Running → Option (Info Running)
    unfolding process_msg
    csck_can_recv none info = some info
    csck_can_recv (some got) info = process_csck_in P process_msg got info

    -- A round of `main_loop` in which no signal came. A message that cannot be read leaves the charger as
    -- it was.
    unfoldable pub round : Option (List ℕ) → Info Running → Ran
    unfolding csck_can_recv end_round
    round got info = elim (csck_can_recv got info) [
      | none ↦ stopped info.app
      | some next ↦ elim next.app.failed [
        | true ↦ stopped next.app
        | false ↦
            let app = end_round next.app in
            elim app.failed [ true ↦ stopped app | false ↦ went (record next { app = app }) ]
      ]
    ]

    unfoldable pub main_loop : List (Option (List ℕ)) → Info Running → Ran
    unfolding round
    main_loop [] info = went info
    main_loop (got ∷ events) info = elim (round got info) [
      | stopped app ↦ stopped app
      | went next ↦ main_loop events next
    ]
