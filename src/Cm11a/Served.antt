-- ===== src/Cm11a/Served.antt =====
-- What withstands the single steps withstands a service of the port (libcm11a/libcm11a.c,
-- `libcm11a_check_wait_objs`).
use renogy_x.Base.{ℕ, ◌+◌, ◌<◌, ◌==◌, leb}
use renogy_x.Base.{◌≡◌, refl, arith, if◌then◌else◌}
use renogy_x.Base.{
  Option, none, some, List, negsuc, Ensures, Ensures-bind, Ensures-when, Bool, true, false,
}
use renogy_x.Base.{ℤ, pos, pos_part, ltb_ℤ, ◌==ℤ◌}
use renogy_x.Base.{◌>>=◌, pure, when, Keeps, Post, Post-if}
use renogy_x.Base.{Keeps-bind, Keeps-when, Keeps-pure, Keeps-modify}
use renogy_x.Cm11a.Device.{Host, State, Act, sys}
use renogy_x.Cm11a.Device.{call_pointer}
use renogy_x.Cm11a.Wait.{fd_can_read, fd_can_write, on_signal, on_crc}
use renogy_x.Cm11a.Wait.{on_byte, check_read, after_write, send_data, check_write}
use renogy_x.Cm11a.Wait.{libcm11a_check_wait_objs}
use renogy_x.Cm11a.Serving.{
  drained, progressed, write_call, written, sys-Keeps, can_read-Keeps, can_write-Keeps, IsStable,
}

positive : (z : ℤ) → ltb_ℤ (pos 0) z ≡ true → (z ≡ pos (pos_part z)) × (0 < pos_part z)
positive (pos n) e = (refl, ground (arith, e))
positive (negsuc n) e = ground (arith, e)

module _ (H : Host) (call : H.App → Act H ℤ) (P : State H → Type 0)
    (stable : IsStable H call P) where
  on_signal-Keeps : (byte : ℕ) → Keeps P (on_signal H call byte)
  unfolding on_signal
  on_signal-Keeps byte s v =
      Post-if _ (byte == 0x55) _ _ (λ _. stable.of_call s.dev.interface_ready s v)
        (λ _.
          Post-if _ (byte == 0x5A) _ _ (λ _. stable.of_call s.dev.interface_poll s v)
            (λ _.
              Post-if _ (byte == 0xA5) _ _ (λ _. stable.of_call s.dev.time_request s v)
                (λ _. Keeps-pure P (pos 1) s v)))

  answered-Keeps :
      (rv : ℤ) → Keeps P (λ s. some (rv, record s { dev = record (s.dev) { want_crc = false } }))
  answered-Keeps rv = Keeps-modify P _ _ stable.of_answer

  on_crc-Keeps : (byte : ℕ) → Keeps P (on_crc H call byte)
  unfolding on_crc
  on_crc-Keeps byte s v =
      Keeps-bind P
        (call_pointer H call (if byte == s.dev.crc then s.dev.crc_ok else s.dev.crc_not_ok)) _
        (stable.of_call _) answered-Keeps s v

  on_byte-Keeps : (byte : ℕ) → Keeps P (on_byte H call byte)
  unfolding on_byte
  on_byte-Keeps byte s v =
      Keeps-when P s.dev.want_crc (on_crc H call byte) (on_signal H call byte) (on_crc-Keeps byte)
        (on_signal-Keeps byte) s v

  check_read-Keeps : Keeps P (check_read H call)
  unfolding check_read
  check_read-Keeps s v =
      Keeps-bind P (sys H (fd_can_read H s.dev.fd (pos 0))) _
        (can_read-Keeps H P stable.of_select s.dev.fd)
        (λ ready.
          Keeps-when P ready _ _
            (Keeps-bind P (sys H (H.sp_blocking_read s.dev.port 1 0)) _
              (sys-Keeps H P _ (λ t h. stable.of_read t s.dev.port h))
              (λ got.
                Keeps-when P (got.0 ==ℤ pos 1) _ _ (on_byte-Keeps got.1) (Keeps-pure P (pos 1))))
            (Keeps-pure P (pos 0)))
        s v

  -- What is known while the data is sent: there is data.
  abbrev Sending : List ℕ → State H → Type 0
  Sending bytes s = P s × (s.dev.data_buf ≡ some bytes)

  after_write-Keeps :
      (s : State H) (bytes : List ℕ) (n : ℕ)
      → Sending bytes s
      → (write_call H bytes s).0 ≡ pos n
      → 0 < n
      → Post (λ _. P) (after_write H call n (written H bytes s))
  unfolding after_write
  after_write-Keeps s bytes n (v, has) took p = go (leb s.dev.data_bytes (s.dev.data_sent + n)) refl
    where
      go :
          (b : Bool)
          → leb s.dev.data_bytes (s.dev.data_sent + n) ≡ b
          → Post
              (λ _. P)
              (when b
                (λ t. call_pointer H call t.dev.done_write (drained H t))
                (pure (pos 0))
                (progressed H n (written H bytes s)))
      go true e =
          stable.of_call s.dev.done_write _ (stable.of_whole s bytes n v has took p (ground arith))
      go false e = Keeps-pure P (pos 0) _ (stable.of_part s bytes n v has took p (ground arith))

  send_data-Keeps : (bytes : List ℕ) → Ensures (Sending bytes) (send_data H call bytes) (λ _. P)
  unfolding send_data
  send_data-Keeps bytes s (v, has) = go (ltb_ℤ (pos 0) (write_call H bytes s).0) refl
    where
      go :
          (b : Bool)
          → ltb_ℤ (pos 0) (write_call H bytes s).0 ≡ b
          → Post
              (λ _. P)
              (when b
                (after_write H call (pos_part (write_call H bytes s).0))
                (pure (pos 1))
                (written H bytes s))
      go true e =
          let (took, some_data) = positive (write_call H bytes s).0 e in
          after_write-Keeps s bytes (pos_part (write_call H bytes s).0) (v, has) took some_data
      go false e = Keeps-pure P (pos 1) (written H bytes s) (stable.of_refused s bytes v has e)

  check_write-Keeps : Keeps P (check_write H call)
  unfolding check_write
  check_write-Keeps s v = go s.dev.data_buf refl
    where
      go :
          (buf : Option (List ℕ))
          → s.dev.data_buf ≡ buf
          → Post
              (λ _. P)
              (elim buf [
                | none ↦ some (pos 0, s)
                | some bytes ↦
                    (do
                      ready ← sys H (fd_can_write H s.dev.fd (pos 0))
                      when ready (send_data H call bytes) (pure (pos 0)))
                      s
              ])
      go none has = Keeps-pure P (pos 0) s v
      go (some bytes) has =
          Ensures-bind (Sending bytes) (λ _. Sending bytes) (λ _. P)
            (sys H (fd_can_write H s.dev.fd (pos 0)))
            (λ ready. when ready (send_data H call bytes) (pure (pos 0)))
            (can_write-Keeps H (Sending bytes)
              (λ t nfds r w time (u, h). (stable.of_select t nfds r w time u, h)) s.dev.fd)
            (λ ready.
              Ensures-when (λ _. P) ready _ _ (send_data-Keeps bytes)
                (λ t (u, h). Keeps-pure P (pos 0) t u))
            s (v, has)

  -- What withstands the single steps withstands a service of the port.
  pub check_wait_objs-Keeps : Keeps P (libcm11a_check_wait_objs H call)
  unfolding libcm11a_check_wait_objs
  check_wait_objs-Keeps =
      Keeps-bind P (check_read H call) _ check_read-Keeps
        (λ rv. Keeps-when P (rv ==ℤ pos 0) _ _ check_write-Keeps (Keeps-pure P rv))
