-- ===== src/Cm11a/Checksum.antt =====
-- The checksum of data that is sent, and what becomes of the byte that answers it
-- (libcm11a/libcm11a.c, `libcm11a_write_data_crc` and `libcm11a_check_wait_objs`).
use renogy_x.Base.{ℕ, ◌+◌, ◌%◌, ◌^◌, ◌<◌, ◌==◌}
use renogy_x.Base.{◌≡◌, refl, ap, ◌∙◌, arith, if◌then◌else◌}
use renogy_x.Base.{true, false, none, some, List, [], ◌∷◌}
use renogy_x.Base.{take}
use renogy_x.Base.{ℤ, pos}
use renogy_x.Base.{◌>>=◌, ◌>>◌, pure, when}
use renogy_x.Cm11a.Device.{Pointer, Host, State, Act, set_dev}
use renogy_x.Cm11a.Device.{data_block, call_pointer}
use renogy_x.Cm11a.Write.{crc_loop, libcm11a_write_data, libcm11a_write_data_crc}
use renogy_x.Cm11a.Wait.{on_signal, on_crc}
use renogy_x.Cm11a.Wait.{on_byte}

abbrev pub sum : List ℕ → ℕ
sum [] = 0
sum (b ∷ bs) = b + sum bs

crc_loop-eq-sum :
    (acc : ℕ) (bytes : List ℕ) → acc < 2 ^ 32 → crc_loop acc bytes ≡ (acc + sum bytes) % 2 ^ 32
unfolding crc_loop
crc_loop-eq-sum acc [] h = omega arith
crc_loop-eq-sum acc (b ∷ bs) h =
    omega (arith, crc_loop-eq-sum ((acc + b) % 2 ^ 32) bs (omega arith))

-- The wrap of the 32-bit sum does not show in its low byte.
crc_byte-eq-sum : (bytes : List ℕ) → crc_loop 0 bytes % 256 ≡ sum bytes % 256
crc_byte-eq-sum bytes = omega (arith, crc_loop-eq-sum 0 bytes (omega arith))

module _ (H : Host) where
  -- The state after data is accepted: the checksum is the sum of the bytes modulo 256.
  abbrev pub awaiting_crc : List ℕ → ℕ → State H → State H
  awaiting_crc bytes n s = record {
    dev = record (s.dev) {
      data_buf = some (take n bytes);
      data_bytes = n;
      data_sent = 0;
      crc = sum (take n bytes) % 256;
      want_crc = true;
    };
    world = (H.malloc data_block n s.world).1;
  }

  -- A driver that has nothing to send, and gets memory, takes a copy of the data and waits for the sum
  -- of its bytes modulo 256; the call returns 0.
  pub write_data_crc-eq-awaiting_crc :
      (bytes : List ℕ) (n : ℕ) (s : State H)
      → s.dev.data_buf ≡ none
      → (H.malloc data_block n s.world).0 ≡ true
      → libcm11a_write_data_crc H bytes n s ≡ some (pos 0, awaiting_crc bytes n s)
  unfolding libcm11a_write_data_crc
  write_data_crc-eq-awaiting_crc bytes n s free given =
      ground (arith, crc_byte-eq-sum (take n bytes))

  -- A driver with data to send refuses more, with or without a checksum: it returns 1 and changes
  -- nothing.
  pub write_busy :
      (bytes sent : List ℕ) (n : ℕ) (s : State H)
      → s.dev.data_buf ≡ some sent
      → (libcm11a_write_data_crc H bytes n s ≡ some (pos 1, s))
        × (libcm11a_write_data H bytes n s ≡ some (pos 1, s))
  unfolding libcm11a_write_data libcm11a_write_data_crc
  write_busy bytes sent n s busy = (ground arith, ground arith)

  abbrev pub clear_crc : ℤ → Act H ℤ
  clear_crc rv = set_dev H (λ d. record d { want_crc = false }) >> pure rv

  -- After data is accepted with a checksum, the next byte decides between `crc_ok` and `crc_not_ok` by
  -- the sum of the data modulo 256, and no checksum is awaited after the callback.
  pub on_byte-write_data_crc :
      (call : H.App → Act H ℤ) (bytes : List ℕ) (n byte : ℕ) (s t : State H) (rv : ℤ)
      → s.dev.data_buf ≡ none
      → (H.malloc data_block n s.world).0 ≡ true
      → libcm11a_write_data_crc H bytes n s ≡ some (rv, t)
      → on_byte H call byte t
        ≡ (call_pointer H call
                (if byte == sum (take n bytes) % 256 then s.dev.crc_ok else s.dev.crc_not_ok)
              >>= clear_crc)
            t
  unfolding on_byte on_crc
  on_byte-write_data_crc call bytes n byte s t rv free given e =
      let same : t ≡ awaiting_crc bytes n s =
        cc (write_data_crc-eq-awaiting_crc bytes n s free given) in
      rw same refl

  -- Where the awaited checksum arrives and `crc_ok` hands over more data with a checksum, the new data
  -- is accepted and no checksum is awaited for it.
  pub chained_crc_lost :
      (call : H.App → Act H ℤ) (bytes : List ℕ) (n byte : ℕ) (s : State H) (f : H.App)
      → call f ≡ libcm11a_write_data_crc H bytes n
      → s.dev.crc_ok ≡ Pointer.app f
      → s.dev.data_buf ≡ none
      → s.dev.want_crc ≡ true
      → byte ≡ s.dev.crc
      → (H.malloc data_block n s.world).0 ≡ true
      → let t = awaiting_crc bytes n s in
        on_byte H call byte s ≡ some (pos 0, record t { dev = record (t.dev) { want_crc = false } })
  unfolding on_byte on_crc call_pointer
  chained_crc_lost call bytes n byte s f calls ok free want eq given =
      let wanted : on_byte H call byte s ≡ on_crc H call byte s =
        ap (λ b. when b (on_crc H call byte) (on_signal H call byte) s) want in
      let chosen : (if byte == s.dev.crc then s.dev.crc_ok else s.dev.crc_not_ok) ≡ Pointer.app f =
        ground arith in
      wanted
      ∙ ap (λ p. (call_pointer H call p >>= clear_crc) s) chosen
      ∙ ap (λ m. (m >>= clear_crc) s) calls
      ∙ ap (λ o. elim o [ none ↦ none | some (a, s') ↦ clear_crc a s' ])
          (write_data_crc-eq-awaiting_crc bytes n s free given)
