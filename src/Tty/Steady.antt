-- ===== src/Tty/Steady.antt =====
-- What holds of the charger over the rounds of `main_loop` of tty_reader/tty_reader_heyu.zig.
use renogy_x.Base.{ℕ}
use renogy_x.Base.{◌≡◌, refl}
use renogy_x.Base.{Bool, true, false, Option, none, some, List, [], ◌∷◌}
use renogy_x.Tty.After.{After, After-elim, After-none, After-some}
use renogy_x.Tty.Parse.{Parse}
use renogy_x.Tty.Subscriber.{Info}
use renogy_x.Tty.Kept.{process_csck_in-After}
use renogy_x.Tty.Charger.{
  House, Running, on_volts, end_round, Ran, went, stopped, on_battery, process_msg, csck_can_recv,
  round, main_loop,
}

module _ (H : House) (P : Parse) where
  -- One property holds while the rounds go on, and another one where they stop.
  abbrev pub Ends : (A B : Running H → Type 0) → Ran H → Type 0
  Ends A B (went info) = A info.app
  Ends A B (stopped app) = B app

  module _ (A B : Running H → Type 0) (weaker : (info : Running H) → A info → B info)
      (sound : (info : Running H) → B info → info.failed ≡ false → A info)
      (of_volts : (volts : ℕ) (info : Running H) → A info → B (on_volts H volts info))
      (of_round : (info : Running H) → A info → B (end_round H info)) where
    on_battery-After :
        (rest : List ℕ) (info : Running H) → A info → After B (on_battery H P rest info)
    unfolding on_battery
    on_battery-After rest info a =
        After-elim B (P.check_rem 4 rest) _ _ (After-some B _ (of_volts _ info a)) (After-none B)

    process_msg-After : (s : List ℕ) (info : Running H) → A info → After B (process_msg H P s info)
    unfolding process_msg
    process_msg-After s info a =
        After-elim B (P.check_rem 8 s) _ _
          (After-elim B _ _ _ (on_battery-After _ info a) (After-some B info (weaker info a)))
          (After-none B)

    csck_can_recv-After :
        (got : Option (List ℕ)) (info : Info (Running H))
        → A info.app
        → After (λ next. B next.app) (csck_can_recv H P got info)
    unfolding csck_can_recv
    csck_can_recv-After none info a = After-some (λ next. B next.app) info (weaker info.app a)
    csck_can_recv-After (some got) info a =
        process_csck_in-After P (process_msg H P) A B weaker process_msg-After got info a

    round-Ends :
        (got : Option (List ℕ)) (info : Info (Running H))
        → A info.app
        → Ends A B (round H P got info)
    unfolding round
    round-Ends got info a = go (csck_can_recv H P got info) (csck_can_recv-After got info a)
      where
        later :
            (next : Info (Running H)) (app : Running H) (failed : Bool)
            → app.failed ≡ failed
            → B app
            → Ends A B
                (elim failed [ true ↦ stopped app | false ↦ went (record next { app = app }) ])
        later next app true e b = b
        later next app false e b = sound app b e

        after_message :
            (next : Info (Running H)) (failed : Bool)
            → next.app.failed ≡ failed
            → B next.app
            → Ends A B (elim failed [
              | true ↦ stopped next.app
              | false ↦
                  let app = end_round H next.app in
                  elim app.failed [ true ↦ stopped app | false ↦ went (record next { app = app }) ]
            ])
        after_message next true e b = b
        after_message next false e b =
            later next (end_round H next.app) _ refl (of_round next.app (sound next.app b e))

        go :
            (o : Option (Info (Running H)))
            → After (λ next. B next.app) o
            → Ends A B (elim o [
              | none ↦ stopped info.app
              | some next ↦ elim next.app.failed [
                | true ↦ stopped next.app
                | false ↦
                    let app = end_round H next.app in
                    elim app.failed [
                      | true ↦ stopped app
                      | false ↦ went (record next { app = app })
                    ]
              ]
            ])
        go none h = weaker info.app a
        go (some next) h = after_message next _ refl (h next refl)

    pub main_loop-Ends :
        (events : List (Option (List ℕ))) (info : Info (Running H))
        → A info.app
        → Ends A B (main_loop H P events info)
    unfolding main_loop
    main_loop-Ends [] info a = a
    main_loop-Ends (got ∷ events) info a =
        go (round H P got info) (round-Ends got info a) (λ next. main_loop-Ends events next)
      where
        go :
            (r : Ran H)
            → Ends A B r
            → ((next : Info (Running H)) → A next.app → Ends A B (main_loop H P events next))
            → Ends A B
                (elim r [ stopped app ↦ stopped app | went next ↦ main_loop H P events next ])
        go (stopped app) h rec = h
        go (went next) h rec = rec next h
