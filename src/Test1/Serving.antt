-- ===== src/Test1/Serving.antt =====
-- What serving the port makes of the client's phase (libcm11a/test1.c on libcm11a/libcm11a.c).
use renogy_x.Base.{ℕ, ◌==◌}
use renogy_x.Base.{◌≡◌, inl, arith, if◌then◌else◌}
use renogy_x.Base.{Bool, true, false, Option, none, some, List}
use renogy_x.Base.{ℤ, pos, ◌==ℤ◌}
use renogy_x.Base.{
  ◌>>=◌, pure, when, Ensures, Ensures-bind, Ensures-when, Post, Post-if, Keeps, Keeps-bind,
  Keeps-when, Keeps-pure,
}
use renogy_x.Cm11a.Checksum.{clear_crc}
use renogy_x.Cm11a.Serving.{drained}
use renogy_x.Base.{◌-◌, ltb_ℤ, pos_part}
use renogy_x.Cm11a.Device.{Host, State, call_pointer, sys}
use renogy_x.Cm11a.Wait.{
  libcm11a_check_wait_objs, on_signal, on_crc, on_byte, check_read, check_write, after_write,
  send_data, fd_can_read, fd_can_write,
}
use renogy_x.Test1.Client.{test1_poll, test1_time, test1_ok, test1_not_ok, test1_done}
use renogy_x.Test1.Client.{client}
use renogy_x.Test1.Client.{call_client}
use renogy_x.Test1.Phases.{Moves, In, sys-In, clear_want-In, others, ready_called}

module _ (H : Host) where
  on_signal-Ensures :
      (p byte : ℕ)
      → Ensures
          (In H (λ q. q ≡ p))
          (on_signal (client H) (call_client H) byte)
          (λ _. In H (Moves p))
  unfolding on_signal
  on_signal-Ensures p byte s (w, q) =
      Post-if _ (byte == 0x55) _ _ (λ _. ready_called H p s.dev.interface_ready w.ready s (w, q))
        (λ _.
          Post-if _ (byte == 0x5A) _ _
            (λ _.
              others H (Moves p) test1_poll s.dev.interface_poll w.poll (λ e. cc e) s (w, inl q))
            (λ _.
              Post-if _ (byte == 0xA5) _ _
                (λ _.
                  others H (Moves p) test1_time s.dev.time_request w.time (λ e. cc e) s (w, inl q))
                (λ _. Keeps-pure (In H (Moves p)) (pos 1) s (w, inl q))))

  on_crc-Keeps :
      (P : ℕ → Type 0) (byte : ℕ) → Keeps (In H P) (on_crc (client H) (call_client H) byte)
  unfolding on_crc
  on_crc-Keeps P byte s (w, q) =
      Keeps-bind (In H P)
        (call_pointer (client H) (call_client H)
          (if byte == s.dev.crc then s.dev.crc_ok else s.dev.crc_not_ok))
        (clear_crc (client H)) (chosen (byte == s.dev.crc)) (clear_want-In H P) s (w, q)
    where
      chosen :
          (b : Bool)
          → Keeps (In H P) (
              call_pointer
                (client H)
                (call_client H)
                (if b then s.dev.crc_ok else s.dev.crc_not_ok))
      chosen true = others H P test1_ok s.dev.crc_ok w.ok (λ e. cc e)
      chosen false = others H P test1_not_ok s.dev.crc_not_ok w.not_ok (λ e. cc e)

  on_byte-Ensures :
      (p byte : ℕ)
      → Ensures (In H (λ q. q ≡ p)) (on_byte (client H) (call_client H) byte) (λ _. In H (Moves p))
  unfolding on_byte
  on_byte-Ensures p byte s (w, q) = go s.dev.want_crc
    where
      go :
          (b : Bool)
          → Post
              (λ _. In H (Moves p))
              (when b
                (on_crc (client H) (call_client H) byte)
                (on_signal (client H) (call_client H) byte)
                s)
      go true = on_crc-Keeps (Moves p) byte s (w, inl q)
      go false = on_signal-Ensures p byte s (w, q)

  check_read-Ensures :
      (p : ℕ)
      → Ensures (In H (λ q. q ≡ p)) (check_read (client H) (call_client H)) (λ _. In H (Moves p))
  unfolding check_read
  check_read-Ensures p s i =
      Ensures-bind (In H (λ q. q ≡ p)) (λ _. In H (λ q. q ≡ p)) (λ _. In H (Moves p))
        (sys (client H) (fd_can_read (client H) s.dev.fd (pos 0))) _ (sys-In H (λ q. q ≡ p) _)
        served s i
    where
      stays : (rv : ℤ) → Ensures (In H (λ q. q ≡ p)) (pure rv) (λ _. In H (Moves p))
      stays rv t (w, q) = Keeps-pure (In H (Moves p)) rv t (w, inl q)

      byte_read :
          Ensures
            (In H (λ q. q ≡ p))
            (do
              got ← sys (client H) (H.sp_blocking_read s.dev.port 1 0)
              when (got.0 ==ℤ pos 1) (on_byte (client H) (call_client H) got.1) (pure (pos 1)))
            (λ _. In H (Moves p))
      byte_read =
          Ensures-bind (In H (λ q. q ≡ p)) (λ _. In H (λ q. q ≡ p)) (λ _. In H (Moves p))
            (sys (client H) (H.sp_blocking_read s.dev.port 1 0)) _ (sys-In H (λ q. q ≡ p) _)
            (λ got. Ensures-when _ (got.0 ==ℤ pos 1) _ _ (on_byte-Ensures p got.1) (stays (pos 1)))

      served :
          (ready : Bool)
          → Ensures
              (In H (λ q. q ≡ p))
              (when ready
                (do
                  got ← sys (client H) (H.sp_blocking_read s.dev.port 1 0)
                  when (got.0 ==ℤ pos 1) (on_byte (client H) (call_client H) got.1) (pure (pos 1)))
                (pure (pos 0)))
              (λ _. In H (Moves p))
      served true = byte_read
      served false = stays (pos 0)

  module _ (P : ℕ → Type 0) where
    drained-In : (s : State (client H)) → In H P s → In H P (drained (client H) s)
    drained-In s (w, p) = ground arith

    after_write-Keeps : (n : ℕ) → Keeps (In H P) (after_write (client H) (call_client H) n)
    unfolding after_write
    after_write-Keeps n s (w, p) a s' e = ground (
      arith,
      others H P test1_done s.dev.done_write w.done (λ e. cc e) (drained (client H) s)
          (drained-In s (w, p)) a s',
    )

    send_data-Keeps : (bytes : List ℕ) → Keeps (In H P) (send_data (client H) (call_client H) bytes)
    unfolding send_data
    send_data-Keeps bytes s i =
        Keeps-bind (In H P)
          (sys (client H)
            (H.sp_blocking_write s.dev.port bytes (s.dev.data_bytes - s.dev.data_sent) 0))
          _ (sys-In H P _)
          (λ error.
            Keeps-when (In H P) (ltb_ℤ (pos 0) error) _ _ (after_write-Keeps (pos_part error))
              (Keeps-pure (In H P) (pos 1)))
          s i

    check_write-Keeps : Keeps (In H P) (check_write (client H) (call_client H))
    unfolding check_write
    check_write-Keeps s i = go s.dev.data_buf s i
      where
        go :
            (buf : Option (List ℕ))
            → Keeps (In H P) (λ t. elim buf [
              | none ↦ some (pos 0, t)
              | some bytes ↦
                  (do
                    ready ← sys (client H) (fd_can_write (client H) t.dev.fd (pos 0))
                    when ready (send_data (client H) (call_client H) bytes) (pure (pos 0)))
                    t
            ])
        go none t u = Keeps-pure (In H P) (pos 0) t u
        go (some bytes) t u =
            Keeps-bind (In H P) (sys (client H) (fd_can_write (client H) t.dev.fd (pos 0))) _
              (sys-In H P _)
              (λ ready.
                Keeps-when (In H P) ready _ _ (send_data-Keeps bytes) (Keeps-pure (In H P) (pos 0)))
              t u

  -- Serving the port moves the phase at most once.
  pub check_wait_objs-Moves :
      (p : ℕ)
      → Ensures
          (In H (λ q. q ≡ p))
          (libcm11a_check_wait_objs (client H) (call_client H))
          (λ _. In H (Moves p))
  unfolding libcm11a_check_wait_objs
  check_wait_objs-Moves p =
      Ensures-bind (In H (λ q. q ≡ p)) (λ _. In H (Moves p)) (λ _. In H (Moves p))
        (check_read (client H) (call_client H)) _ (check_read-Ensures p)
        (λ rv.
          Keeps-when (In H (Moves p)) (rv ==ℤ pos 0) _ _ (check_write-Keeps (Moves p))
            (Keeps-pure (In H (Moves p)) rv))
