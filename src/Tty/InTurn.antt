-- ===== src/Tty/InTurn.antt =====
-- The charger is switched on and off in turn (tty_reader/tty_reader_heyu.zig).
use renogy_x.Base.{ℕ}
use renogy_x.Base.{◌≡◌, refl, subst, sym, ap, ◌∙◌}
use renogy_x.Base.{Bool, true, false, not, Option, List, [], ◌∷◌}
use renogy_x.Base.{ltb_ℤ}
use renogy_x.Tty.Parse.{Parse}
use renogy_x.Tty.Subscriber.{Info}
use renogy_x.Tty.Steady.{Ends, main_loop-Ends}
use renogy_x.Tty.Charger.{
  House, ChargerState, looking_for_low, charging, Running, switch_on, on_volts, switch_off,
  end_round, went, main_loop,
}

pub data Switched : Type 0 where
  on off : Switched

-- The commands so far, the last of them first, up to a state.
pub data InTurn : ChargerState → List Switched → Type 0 where
  idle : InTurn looking_for_low []
  turned_on : (l : List Switched) → InTurn looking_for_low l → InTurn charging (on ∷ l)
  turned_off : (l : List Switched) → InTurn charging l → InTurn looking_for_low (off ∷ l)

-- A command that did not fail could be run.
ran : (ok : Bool) → not ok ≡ false → ok ≡ true
ran true e = refl
ran false e = sym e

module _ (H : House) (switches : H.World → List Switched) where
  -- `switches` lists the commands that could be run, which the clock is not.
  pub record IsListed : Type 0 where
    pub of_time : (w : H.World) → switches (H.milli_timestamp w).1 ≡ switches w
    pub of_on :
        (w : H.World) → (H.charger_on w).0 ≡ true → switches (H.charger_on w).1 ≡ on ∷ switches w
    pub of_off :
        (w : H.World) → (H.charger_off w).0 ≡ true → switches (H.charger_off w).1 ≡ off ∷ switches w

  abbrev pub Turned : Running H → Type 0
  Turned info = InTurn info.state (switches info.world)

  -- After a command that could not be run nothing is asked.
  abbrev pub TurnedUnlessFailed : Running H → Type 0
  TurnedUnlessFailed info = info.failed ≡ false → Turned info

  module _ (laws : IsListed) where
    switch_on-Turned :
        (info : Running H)
        → info.state ≡ looking_for_low
        → Turned info
        → TurnedUnlessFailed (switch_on H info)
    unfolding switch_on
    switch_on-Turned info state turned e =
        let w : H.World = (H.milli_timestamp info.world).1 in
        let listed = laws.of_on w (ran _ e) ∙ ap (λ l. on ∷ l) (laws.of_time info.world) in
        subst (InTurn charging) (sym listed) (
          turned_on (switches info.world)
            (subst (λ s. InTurn s (switches info.world)) state turned))

    pub on_volts-Turned :
        (volts : ℕ) (info : Running H) → Turned info → TurnedUnlessFailed (on_volts H volts info)
    unfolding on_volts
    on_volts-Turned volts info turned = go info.state refl (H.is_low volts)
      where
        go :
            (s : ChargerState)
            → info.state ≡ s
            → (low : Bool)
            → TurnedUnlessFailed (elim s [
              | charging ↦ info
              | looking_for_low ↦ elim low [ true ↦ switch_on H info | false ↦ info ]
            ])
        go charging state low e = turned
        go looking_for_low state true e = switch_on-Turned info state turned e
        go looking_for_low state false e = turned

    pub switch_off-Turned :
        (w : H.World)
        → InTurn charging (switches w)
        → (H.charger_off w).0 ≡ true
        → InTurn looking_for_low (switches (H.charger_off w).1)
    switch_off-Turned w turned e =
        subst (InTurn looking_for_low) (sym (laws.of_off w e)) (turned_off (switches w) turned)

    pub end_round-Turned : (info : Running H) → Turned info → TurnedUnlessFailed (end_round H info)
    unfolding end_round switch_off
    end_round-Turned info turned =
        go info.state refl (ltb_ℤ (H.milli_timestamp info.world).0 info.charger_off_time)
      where
        w : H.World
        w = (H.milli_timestamp info.world).1

        later : Turned (record info { world = w })
        later = subst (InTurn info.state) (sym (laws.of_time info.world)) turned

        go :
            (s : ChargerState)
            → info.state ≡ s
            → (early : Bool)
            → TurnedUnlessFailed (elim s [
              | looking_for_low ↦ info
              | charging ↦ elim early [
                | true ↦ record info { world = w }
                | false ↦ switch_off H info w
              ]
            ])
        go looking_for_low state early e = turned
        go charging state true e = later
        go charging state false e =
            switch_off-Turned w (subst (λ s. InTurn s (switches w)) state later) (ran _ e)

    -- Whatever is received and whenever, as long as no error ends the rounds, the charger is switched on
    -- and off in turn, on first, and is on exactly while the state is CHARGING, if it was so before.
    pub main_loop-InTurn :
        (P : Parse) (events : List (Option (List ℕ))) (info next : Info (Running H))
        → Turned info.app
        → main_loop H P events info ≡ went next
        → Turned next.app
    main_loop-InTurn P events info next turned e = subst (Ends H P Turned TurnedUnlessFailed) e (
        main_loop-Ends H P Turned TurnedUnlessFailed (λ app t failed. t) (λ app t e. t e)
          on_volts-Turned end_round-Turned events info turned)
