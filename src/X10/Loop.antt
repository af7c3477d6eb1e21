-- ===== src/X10/Loop.antt =====
-- `main_loop` and `main` (examples/x10_cm11/x10_cm11.c), over the calls of libserialport that the driver
-- makes too, and `usleep`.
use renogy_x.Base.{ℕ, zero, suc, ◌+◌, ◌%◌, ◌==◌}
use renogy_x.Base.{if◌then◌else◌}
use renogy_x.Base.{true, false, ◌&&◌, Option, none, some, List, [], ◌∷◌}
use renogy_x.Base.{ℤ, pos, ◌+ℤ◌, ltb_ℤ, ◌==ℤ◌}
use renogy_x.Base.{M, ◌>>=◌, ◌>>◌, pure, when}
use renogy_x.Base.{codes, fd_isset, timeval_of_ms}
use renogy_x.Cm11a.Device.{Host}
use renogy_x.Cm11a.Port.{open_port}

module _ (H : Host) (usleep : ℕ → H.World → H.World) where
  abbrev pub Io : Type 0 → Type 0
  Io A = M H.World A

  abbrev pub write : H.Handle → List ℕ → ℕ → Io ℤ
  write port out_buff n w = some (H.sp_blocking_write port out_buff n 0 w)

  -- The result with the byte that is then in `in_buff[0]`.
  abbrev pub read_byte : H.Handle → Io (ℤ × ℕ)
  read_byte port w = some (H.sp_blocking_read port 1 0 w)

  -- A loop that sends two bytes until their checksum comes back, and then confirms it with a zero.
  -- `fuel` bounds the attempts, and `none` says that it is used up: the loop itself has no bound.
  unfoldable pub handshake : H.Handle → ℕ → ℕ → ℕ → Io (Unit {0})
  handshake port a b zero w = none
  handshake port a b (suc fuel) w =
      let (_, w1) = H.sp_blocking_write port (a ∷ b ∷ []) 2 0 w in
      let ((error, byte), w2) = H.sp_blocking_read port 1 0 w1 in
      elim ((error ==ℤ pos 1) && (byte == (a + b) % 256)) [
        | true ↦ some (tt, (H.sp_blocking_write port (0x00 ∷ []) 1 0 w2).1)
        | false ↦ handshake port a b fuel w2
      ]

  -- The first timeout: the address and then the command, each with the byte that follows.
  unfoldable pub switch_on : H.Handle → ℕ → Io (Unit {0})
  unfolding handshake
  switch_on port fuel = do
    handshake port 0x04 0x6E fuel
    read_byte port
    handshake port 0x06 0x62 fuel
    read_byte port
    pure tt

  -- The `switch` on a byte that arrives.
  unfoldable pub answer : H.Handle → ℕ → Io (Unit {0})
  answer port byte w =
      if byte == 0x5A
      then some (tt, (H.sp_blocking_write port (0xC3 ∷ []) 1 0 w).1)
      else if byte == 0xA5
      then some (tt, usleep 10000 (H.sp_blocking_write port (0x9B ∷ []) 1 0 w).1)
      else some (tt, w)

  unfoldable pub on_readable : H.Handle → Io (Unit {0})
  unfolding answer
  on_readable port = do
    got ← read_byte port
    when (ltb_ℤ (pos 0) got.0) (answer port got.1) (pure tt)

  -- `loop_count` after a wait: it counts waits of five seconds, and is not followed beyond an `int`.
  unfoldable pub on_timeout : H.Handle → ℕ → ℤ → ℕ → Io ℕ
  unfolding switch_on
  on_timeout port fuel lerror loop_count =
      when (lerror ==ℤ pos 0)
        (do when (loop_count == 0) (switch_on port fuel) (pure tt); pure (loop_count + 1))
        (pure loop_count)

  -- A round of the loop, from one `loop_count` to the next.
  unfoldable pub main_loop_round : H.Handle → ℤ → ℕ → ℕ → Io ℕ
  unfolding on_timeout on_readable timeval_of_ms
  main_loop_round port fd fuel loop_count w =
      let (r, w1) = H.select (fd +ℤ pos 1) (fd ∷ []) [] (timeval_of_ms (pos 5000)) w in
      (do
        count ← on_timeout port fuel r.rv loop_count
        when (fd_isset fd r.rfds) (on_readable port) (pure tt)
        pure count)
        w1

  -- The loop has no end: what is modelled is its state after a number of rounds.
  unfoldable pub main_loop : H.Handle → ℤ → ℕ → ℕ → ℕ → Io ℕ
  unfolding main_loop_round
  main_loop port fd fuel zero loop_count = pure loop_count
  main_loop port fd fuel (suc rounds) loop_count = do
    count ← main_loop_round port fd fuel loop_count
    main_loop port fd fuel rounds count

  -- `main` after a number of rounds; the loop is reached only where the port opens.
  unfoldable pub main : ℕ → ℕ → H.World → Option H.World
  unfolding main_loop
  main fuel rounds w =
      let (opened, w') = open_port H (codes "/dev/ttyS0") w in
      elim opened [
        | none ↦ some w'
        | some (port, fd) ↦ elim (main_loop port fd fuel rounds 0 w') [
          | none ↦ none
          | some (_, v) ↦ some v
        ]
      ]
