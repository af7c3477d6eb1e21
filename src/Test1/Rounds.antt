-- ===== src/Test1/Rounds.antt =====
-- What a round of the client's loop makes of its phase (libcm11a/test1.c).
use renogy_x.Base.{ℕ, ◌==◌}
use renogy_x.Base.{◌≡◌, ◌⊎◌, refl, inl, inr, arith, if◌then◌else◌}
use renogy_x.Base.{Bool, true, false, some, [], ◌∷◌}
use renogy_x.Base.{ℤ, pos, ◌==ℤ◌}
use renogy_x.Base.{pure, when, Ensures, Ensures-bind, Post, Keeps, sym, ◌∙◌, Keeps-pure}
use renogy_x.Base.{◌≢◌, ◌↔◌}
use renogy_x.Cm11a.Device.{Host}
use renogy_x.Test1.Client.{state_start, state_sent_address, state_done}
use renogy_x.Test1.Client.{phase, send_address}
use renogy_x.Test1.Client.{wait, main_loop_round, step}
use renogy_x.Test1.Phases.{Moves, In, write_data_crc-In, set_phase-Ensures}
use renogy_x.Test1.Serving.{check_wait_objs-Moves}

module _ (H : Host) where
  wait-In : (P : ℕ → Type 0) → Keeps (In H P) (wait H)
  unfolding wait
  wait-In P s (w, p) a s' e = ground arith

  send_address-Ensures :
      Ensures
        (In H (λ q. q ≡ state_start))
        (send_address H)
        (λ _. In H (λ q. q ≡ state_sent_address))
  unfolding send_address
  send_address-Ensures =
      Ensures-bind _ _ _ _ _ (write_data_crc-In H (λ q. q ≡ state_start) (0x04 ∷ 0x6E ∷ []) 2)
        (λ _. set_phase-Ensures H (λ q. q ≡ state_start) state_sent_address (omega arith))

  abbrev Enters : ℕ → ℕ → Type 0
  Enters p q = ((p ≡ state_start) × (q ≡ state_sent_address)) ⊎ ((p ≢ state_start) × (q ≡ p))

  -- What the end of a round makes of a phase: the start becomes the address sent, and the loop goes on
  -- unless the client is done.
  abbrev Steps : ℕ → Bool → ℕ → Type 0
  Steps p again q = Enters p q × ((again ≡ true) ↔ (q ≢ state_done))

  start-Enters :
      (p : ℕ)
      → Ensures
          (In H (λ q. q ≡ p))
          (λ s. when (phase H s == state_start) (send_address H) (pure tt) s)
          (λ _. In H (Enters p))
  start-Enters p s (w, q) = go (phase H s == state_start) refl
    where
      go :
          (b : Bool)
          → (phase H s == state_start) ≡ b
          → Post (λ _. In H (Enters p)) (when b (send_address H) (pure tt) s)
      go true e = λ a t r.
          let at1 : phase H s ≡ state_start = ground arith in
          let (w', q') = send_address-Ensures s (w, at1) a t r in (w', inl (sym q ∙ at1, q'))
      go false e = Keeps-pure (In H (Enters p)) tt s (w, inr (ground arith, q))

  ends-Steps :
      (p : ℕ)
      → Ensures
          (In H (Enters p))
          (λ t. some (if phase H t == state_done then false else true, t))
          (λ again. In H (Steps p again))
  ends-Steps p t (w, q) a s' e = ground arith

  step-Steps : (p : ℕ) → Ensures (In H (λ q. q ≡ p)) (step H) (λ again. In H (Steps p again))
  unfolding step
  step-Steps p s i =
      Ensures-bind (In H (λ q. q ≡ p)) (λ _. In H (Enters p)) (λ again. In H (Steps p again))
        (λ s. when (phase H s == state_start) (send_address H) (pure tt) s)
        (λ _ t. some (if phase H t == state_done then false else true, t)) (start-Enters p)
        (λ _. ends-Steps p) s i

  -- What a round makes of a phase.
  abbrev pub Advances : ℕ → Bool → ℕ → Type 0
  Advances p again q =
      (again ≡ true → q ≢ state_done)
      × (((p ≡ state_start) × ((again ≡ true) × (q ≡ state_sent_address)))
          ⊎ (Moves p q × (p ≡ state_start → again ≡ false)))

  served-Advances :
      (p : ℕ) (error : ℤ)
      → Ensures
          (In H (Moves p))
          (when (error ==ℤ pos 0) (step H) (pure false))
          (λ again. In H (Advances p again))
  served-Advances p error s (w, m) = go (error ==ℤ pos 0)
    where
      go : (b : Bool) → Post (λ again. In H (Advances p again)) (when b (step H) (pure false) s)
      go true =
          λ a t r. let (w', h) = step-Steps (phase H s) s (w, refl) a t r in (w', ground arith)
      go false = λ a t r. ground arith

  -- A round that comes back, of a client with its functions in place and in the phase `p`: the
  -- functions stay in place, no round follows once the client is done, and either the start becomes
  -- the address sent and another round follows, or the phase stays, or goes from the address sent to
  -- the command sent or from the command sent to done, and no round follows if it was the start.
  pub main_loop_round-Advances :
      (p : ℕ) → Ensures (In H (λ q. q ≡ p)) (main_loop_round H) (λ again. In H (Advances p again))
  unfolding main_loop_round
  main_loop_round-Advances p =
      Ensures-bind _ (λ _. In H (λ q. q ≡ p)) _ (wait H) _ (wait-In (λ q. q ≡ p))
        (λ _.
          Ensures-bind _ (λ _. In H (Moves p)) _ _ _ (check_wait_objs-Moves H p)
            (served-Advances p))
