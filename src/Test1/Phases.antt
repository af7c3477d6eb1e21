-- ===== src/Test1/Phases.antt =====
-- The phases of the client in `user[0]`, and what its callbacks make of them (libcm11a/test1.c).
use renogy_x.Base.{ℕ, ◌==◌, ◌<◌}
use renogy_x.Base.{◌≡◌, ◌⊎◌, refl, inl, inr, arith}
use renogy_x.Base.{List, [], ◌∷◌}
use renogy_x.Base.{ℤ, pos}
use renogy_x.Base.{
  pure, Ensures, Ensures-bind, Post-if, Keeps, subst, sym, ◌∙◌, Keeps-bind, Keeps-pure,
}
use renogy_x.Cm11a.Checksum.{clear_crc}
use renogy_x.Base.{◌≢◌}
use renogy_x.Cm11a.Device.{Pointer, Host, State, call_pointer, sys}
use renogy_x.Cm11a.Write.{libcm11a_write_data, libcm11a_write_data_crc}
use renogy_x.Test1.Client.{
  Callback, test1_ready, test1_poll, test1_time, test1_ok, test1_not_ok, test1_done,
}
use renogy_x.Test1.Client.{client, state_sent_address, state_sent_command, state_done}
use renogy_x.Test1.Client.{first_word, put_first, phase, set_phase, send_command}
use renogy_x.Test1.Client.{
  test1_interface_ready, test1_interface_poll, test1_time_request, test1_crc_ok, test1_crc_not_ok,
  test1_done_write,
}
use renogy_x.Test1.Client.{call_client}

-- What one callback may make of the phase.
abbrev pub Moves : ℕ → ℕ → Type 0
Moves p q =
    (q ≡ p)
    ⊎ (((p ≡ state_sent_address) × (q ≡ state_sent_command))
        ⊎ ((p ≡ state_sent_command) × (q ≡ state_done)))

first_word-put_first : (v : ℕ) (us : List ℕ) → 0 < first_word us → first_word (put_first v us) ≡ v
first_word-put_first v [] h = omega arith
first_word-put_first v (u ∷ us) h = refl

module _ (H : Host) where
  -- The driver calls the client's functions, each in its place.
  pub record IsWired (s : State (client H)) : Type 0 where
    pub ready : s.dev.interface_ready ≡ Pointer.app test1_ready
    pub poll : s.dev.interface_poll ≡ Pointer.app test1_poll
    pub time : s.dev.time_request ≡ Pointer.app test1_time
    pub ok : s.dev.crc_ok ≡ Pointer.app test1_ok
    pub not_ok : s.dev.crc_not_ok ≡ Pointer.app test1_not_ok
    pub done : s.dev.done_write ≡ Pointer.app test1_done
    pub words : 0 < phase H s

  -- A wired driver in a phase that meets `P`.
  abbrev pub In : (ℕ → Type 0) → State (client H) → Type 0
  In P s = IsWired s × P (phase H s)

  module _ (P : ℕ → Type 0) where
    pub sys-In : {A : Type 0} (f : H.World → A × H.World) → Keeps (In P) (sys (client H) f)
    sys-In f s (w, p) a s' e = ground arith

    pub write_data-In :
        (bytes : List ℕ) (n : ℕ) → Keeps (In P) (libcm11a_write_data (client H) bytes n)
    unfolding libcm11a_write_data
    write_data-In bytes n s (w, p) a s' e = ground arith

    pub write_data_crc-In :
        (bytes : List ℕ) (n : ℕ) → Keeps (In P) (libcm11a_write_data_crc (client H) bytes n)
    unfolding libcm11a_write_data_crc
    write_data_crc-In bytes n s (w, p) a s' e = ground arith

    pub clear_want-In : (rv : ℤ) → Keeps (In P) (clear_crc (client H) rv)
    clear_want-In rv s (w, p) a s' e = ground arith

    time-In : Keeps (In P) (test1_time_request H)
    unfolding test1_time_request
    time-In = Keeps-bind _ _ _ (write_data-In (0x9B ∷ []) 1) (λ _. Keeps-pure _ (pos 0))

    ok-In : Keeps (In P) (test1_crc_ok H)
    unfolding test1_crc_ok
    ok-In = Keeps-bind _ _ _ (write_data-In (0x00 ∷ []) 1) (λ _. Keeps-pure _ (pos 0))

    -- The callbacks other than `test1_interface_ready` leave the phase alone.
    others-In : (f : Callback) → f ≢ test1_ready → Keeps (In P) (call_client H f)
    unfolding call_client test1_interface_poll test1_crc_not_ok test1_done_write
    others-In test1_ready h = absurd (h refl)
    others-In test1_poll h = Keeps-pure _ (pos 0)
    others-In test1_time h = time-In
    others-In test1_ok h = ok-In
    others-In test1_not_ok h = Keeps-pure _ (pos 0)
    others-In test1_done h = Keeps-pure _ (pos 0)

  pub set_phase-Ensures :
      (P : ℕ → Type 0) (v : ℕ) → 0 < v → Ensures (In P) (set_phase H v) (λ _. In (λ q. q ≡ v))
  set_phase-Ensures P v h s (w, p) a s' e =
      ground (arith, first_word-put_first v s.dev.user w.words)

  send_command-Ensures :
      Ensures
        (In (λ q. q ≡ state_sent_address))
        (send_command H)
        (λ _. In (λ q. q ≡ state_sent_command))
  unfolding send_command
  send_command-Ensures =
      Ensures-bind _ _ _ _ _ (write_data_crc-In (λ q. q ≡ state_sent_address) (0x06 ∷ 0x62 ∷ []) 2)
        (λ _.
          Ensures-bind _ _ _ _ _
            (set_phase-Ensures (λ q. q ≡ state_sent_address) state_sent_command (omega arith))
            (λ _. Keeps-pure _ (pos 0)))

  -- What `test1_interface_ready` makes of the phase.
  ready-Ensures : (p : ℕ) → Ensures (In (λ q. q ≡ p)) (test1_interface_ready H) (λ _. In (Moves p))
  unfolding test1_interface_ready
  ready-Ensures p s (w, q) =
      Post-if (λ _. In (Moves p)) (phase H s == state_sent_address) _ _
        (λ at a t r.
          let at2 : phase H s ≡ state_sent_address = ground arith in
          let (w', q') = send_command-Ensures s (w, at2) a t r in (w', inr (inl (sym q ∙ at2, q'))))
        (λ _.
          Post-if (λ _. In (Moves p)) (phase H s == state_sent_command) _ _
            (λ at a t r.
              let at3 : phase H s ≡ state_sent_command = ground arith in
              let (w', q') =
                Ensures-bind (In (λ x. x ≡ p)) (λ _. In (λ x. x ≡ state_done))
                  (λ _. In (λ x. x ≡ state_done)) (set_phase H state_done) (λ _. pure (pos 0))
                  (set_phase-Ensures (λ x. x ≡ p) state_done (omega arith))
                  (λ _. Keeps-pure _ (pos 0)) s (w, q) a t r in
              (w', inr (inr (sym q ∙ at3, q'))))
            (λ _. Keeps-pure (In (Moves p)) (pos 0) s (w, inl q)))

  pub others :
      (P : ℕ → Type 0) (f : Callback) (q : Pointer Callback)
      → q ≡ Pointer.app f
      → f ≢ test1_ready
      → Keeps (In P) (call_pointer (client H) (call_client H) q)
  unfolding call_pointer
  others P f q e h =
      subst (λ q. Keeps (In P) (call_pointer (client H) (call_client H) q)) (sym e)
        (others-In P f h)

  pub ready_called :
      (p : ℕ) (q : Pointer Callback)
      → q ≡ Pointer.app test1_ready
      → Ensures (In (λ x. x ≡ p)) (call_pointer (client H) (call_client H) q) (λ _. In (Moves p))
  unfolding call_pointer call_client
  ready_called p q e =
      subst
        (λ q.
          Ensures (In (λ x. x ≡ p)) (call_pointer (client H) (call_client H) q) (λ _. In (Moves p)))
        (sym e) (ready-Ensures p)
