-- ===== src/Influx/Main/Status.antt =====
-- The exit status of the program (renogy_influx/renogy_influx.c, from `main_fgbg` to `main`).
use renogy_x.Influx.Monitor.Turns.{after}
use renogy_x.Base.{ℕ}
use renogy_x.Base.{◌≡◌, refl, ap, ◌∙◌, ◌⊎◌, inl, inr}
use renogy_x.Base.{Option, none, some, List}
use renogy_x.Base.{ℤ}
use renogy_x.Influx.System.{System}
use renogy_x.Influx.Env.{ErrorCode, error_none, error_fatal, error_shutdown, Monitor}
use renogy_x.Influx.Env.{exit_code}
use renogy_x.Influx.Main.Args.{Settings}
use renogy_x.Influx.Main.Start.{
  sigint, sigterm, sigpipe, run_logged, run_daemon, main_fgbg, main_settings, with_pipe, main,
}
use renogy_x.Influx.Monitor.Codes.{main_modbus-Yields}
use renogy_x.Influx.Monitor.Outcomes.{
  Yields, Yields-after, Yields-some, Yields-eq, Yields-if, Yields-option,
}

module _ (S : System) where
  abbrev IsStatus : ErrorCode → Monitor S → Type 0
  IsStatus rv s = (exit_code rv ≡ 0) ⊎ ((exit_code rv ≡ 1) ⊎ (exit_code rv ≡ 4))

  run_logged-IsStatus :
      (flags : ℕ) (filename : List ℕ) (inner fuel : ℕ) (s : Monitor S)
      → Yields S IsStatus (run_logged S flags filename inner fuel s)
  unfolding run_logged
  run_logged-IsStatus flags filename inner fuel s =
      Yields-after S _ _ _ _ (main_modbus-Yields S inner fuel _)
        (λ rv t c. Yields-some S _ (status_of rv c))
    where
      status_of :
          (rv : ErrorCode)
          → (rv ≡ error_fatal) ⊎ (rv ≡ error_shutdown)
          → (exit_code rv ≡ 0) ⊎ ((exit_code rv ≡ 1) ⊎ (exit_code rv ≡ 4))
      status_of rv (inl e) = inr (inl (ap exit_code e ∙ (unfold exit_code in refl)))
      status_of rv (inr e) = inr (inr (ap exit_code e ∙ (unfold exit_code in refl)))

  done : exit_code error_none ≡ 0
  unfolding exit_code
  done = refl

  fatal : exit_code error_fatal ≡ 1
  unfolding exit_code
  fatal = refl

  main_fgbg-IsStatus :
      (settings : Settings) (inner fuel : ℕ) (s : Monitor S)
      → Yields S IsStatus (main_fgbg S settings inner fuel s)
  unfolding main_fgbg run_daemon
  main_fgbg-IsStatus settings inner fuel s =
      Yields-if S _ _ _ _
        (Yields-if S _ _ _ _ (run_logged-IsStatus _ _ inner fuel _)
          (Yields-if S _ _ _ _ (Yields-some S _ (inl done)) (Yields-some S _ (inr (inl fatal)))))
        (run_logged-IsStatus _ _ inner fuel _)

  main_settings-IsStatus :
      (argv : List (List ℕ)) (inner fuel : ℕ) (s : Monitor S)
      → Yields S IsStatus (main_settings S argv inner fuel s)
  unfolding main_settings
  main_settings-IsStatus argv inner fuel s =
      Yields-if S _ _ _ _
        (Yields-option S _ _ _ _ (Yields-some S _ (inl done)) (λ settings.
          Yields-after S IsStatus _ _ _ (main_fgbg-IsStatus settings inner fuel _)
            (λ rv t c. Yields-some S _ c)))
        (Yields-some S _ (inr (inl fatal)))

  with_pipe-IsStatus :
      (argv : List (List ℕ)) (inner fuel : ℕ) (s : Monitor S)
      → Yields S IsStatus (with_pipe S argv inner fuel s)
  unfolding with_pipe
  with_pipe-IsStatus argv inner fuel s = go (S.pipe s.world).0
    where
      failed : Monitor S
      failed = record s { world = (S.pipe s.world).1 }

      go :
          (ends : Option (ℤ × ℤ))
          → Yields S IsStatus (elim ends [
            | none ↦ some (error_fatal, failed)
            | some (out, into) ↦
                after S
                  (main_settings S argv inner fuel
                    (record failed { term_pipe = out; term_pipe_out = into }))
                  (λ rv t. some (rv, record t { world = S.close into (S.close out t.world) }))
          ])
      go none = Yields-some S IsStatus (inr (inl fatal))
      go (some (out, into)) =
          Yields-after S IsStatus IsStatus _ _ (main_settings-IsStatus argv inner fuel _)
            (λ rv t c. Yields-some S IsStatus c)

  main-IsStatus :
      (argv : List (List ℕ)) (inner fuel : ℕ) (s : Monitor S)
      → Yields S IsStatus (main S argv inner fuel s)
  unfolding main
  main-IsStatus argv inner fuel s =
      let int_set = S.signal sigint s.world in
      let term_set = S.signal sigterm int_set.1 in
      let pipe_set = S.signal sigpipe term_set.1 in
      let stopped = λ (w : S.World).
        Yields-some S IsStatus {rv = error_fatal} {s = record s { world = w }} (inr (inl fatal)) in
      Yields-if S IsStatus int_set.0 _ _
        (Yields-if S IsStatus term_set.0 _ _
          (Yields-if S IsStatus pipe_set.0 _ _
            (with_pipe-IsStatus argv inner fuel (record s { world = pipe_set.1 }))
            (stopped pipe_set.1))
          (stopped term_set.1))
        (stopped int_set.1)

  -- If the program comes back, then with status 0, 1 or 4.
  pub main_exit_codes :
      (argv : List (List ℕ)) (inner fuel : ℕ) (s t : Monitor S) (rv : ErrorCode)
      → main S argv inner fuel s ≡ some (rv, t)
      → (exit_code rv ≡ 0) ⊎ ((exit_code rv ≡ 1) ⊎ (exit_code rv ≡ 4))
  main_exit_codes argv inner fuel s t rv e =
      Yields-eq S IsStatus (main S argv inner fuel s) (main-IsStatus argv inner fuel s) e
