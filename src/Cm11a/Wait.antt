-- ===== src/Cm11a/Wait.antt =====
-- Waiting for the port and serving it: `fd_can_read`, `fd_can_write`, `libcm11a_get_wait_objs_rw` and
-- `libcm11a_check_wait_objs` of libcm11a/libcm11a.c.
use renogy_x.Base.{ℕ, ◌+◌, ◌-◌, leb, ◌==◌}
use renogy_x.Base.{if◌then◌else◌}
use renogy_x.Base.{Bool, true, false, none, some, List, [], ◌∷◌, ◌++◌}
use renogy_x.Base.{ℤ, pos, pos_part, ◌+ℤ◌, ltb_ℤ, ◌==ℤ◌}
use renogy_x.Base.{◌>>=◌, ◌>>◌, pure, read_state, when}
use renogy_x.Base.{FdSet, timeval_of_ms}
use renogy_x.Cm11a.Device.{Host, Device, Act, sys, sys_do, set_dev}
use renogy_x.Cm11a.Device.{data_block, call_pointer}

module _ (H : Host) where
  -- `select` on one descriptor, for reading or for writing.
  unfoldable pub fd_can_write : ℤ → ℤ → H.World → Bool × H.World
  unfolding timeval_of_ms
  fd_can_write fd millis w = elim (ltb_ℤ fd (pos 0)) [
    | true ↦ (false, w)
    | false ↦
        let (r, w') = H.select (fd +ℤ pos 1) [] (fd ∷ []) (timeval_of_ms millis) w in
        (ltb_ℤ (pos 0) r.rv, w')
  ]

  unfoldable pub fd_can_read : ℤ → ℤ → H.World → Bool × H.World
  unfolding timeval_of_ms
  fd_can_read fd millis w = elim (ltb_ℤ fd (pos 0)) [
    | true ↦ (false, w)
    | false ↦
        let (r, w') = H.select (fd +ℤ pos 1) (fd ∷ []) [] (timeval_of_ms millis) w in
        (ltb_ℤ (pos 0) r.rv, w')
  ]

  -- The descriptors are added behind those that the caller has listed; the timeout is left alone.
  unfoldable pub libcm11a_get_wait_objs_rw : Device H → FdSet × FdSet → FdSet × FdSet
  libcm11a_get_wait_objs_rw d (robjs, wobjs) =
      (robjs ++ (d.fd ∷ []), elim d.data_buf [ none ↦ wobjs | some _ ↦ wobjs ++ (d.fd ∷ []) ])

-- From here on the functions of the application are called.
module _ (H : Host) (call : H.App → Act H ℤ) where
  -- The `switch` on a byte that is no checksum.
  unfoldable pub on_signal : ℕ → Act H ℤ
  on_signal byte s =
      if byte == 0x55
      then call_pointer H call s.dev.interface_ready s
      else if byte == 0x5A
      then call_pointer H call s.dev.interface_poll s
      else if byte == 0xA5
      then call_pointer H call s.dev.time_request s
      else some (pos 1, s)

  -- The byte is the answer to data sent with a checksum. The flag is cleared after the callback.
  unfoldable pub on_crc : ℕ → Act H ℤ
  on_crc byte = do
    s ← read_state
    rv ← call_pointer H call (if byte == s.dev.crc then s.dev.crc_ok else s.dev.crc_not_ok)
    set_dev H (λ d. record d { want_crc = false })
    pure rv

  unfoldable pub on_byte : ℕ → Act H ℤ
  on_byte byte = do s ← read_state; when s.dev.want_crc (on_crc byte) (on_signal byte)

  -- The first half of `libcm11a_check_wait_objs`.
  unfoldable pub check_read : Act H ℤ
  check_read = do
    s ← read_state
    ready ← sys H (fd_can_read H s.dev.fd (pos 0))
    when ready
        (do
          got ← sys H (H.sp_blocking_read s.dev.port 1 0)
          when (got.0 ==ℤ pos 1) (on_byte got.1) (pure (pos 1)))
        (pure (pos 0))

  -- What follows a write that took `error` bytes, where that is more than none.
  unfoldable pub after_write : ℕ → Act H ℤ
  after_write error = do
    set_dev H (λ d. record d { data_sent = d.data_sent + error })
    s ← read_state
    when (leb s.dev.data_bytes s.dev.data_sent)
        (do
          sys_do H (H.free data_block)
          set_dev H (λ d. record d { data_buf = none; data_sent = 0; data_bytes = 0 })
          t ← read_state
          call_pointer H call t.dev.done_write)
        (pure (pos 0))

  -- The second half: the write starts at the beginning of the data, also when part of it is sent.
  unfoldable pub send_data : List ℕ → Act H ℤ
  send_data bytes = do
    s ← read_state
    let to_send = s.dev.data_bytes - s.dev.data_sent
    error ← sys H (H.sp_blocking_write s.dev.port bytes to_send 0)
    when (ltb_ℤ (pos 0) error) (after_write (pos_part error)) (pure (pos 1))

  unfoldable pub check_write : Act H ℤ
  check_write s = elim s.dev.data_buf [
    | none ↦ some (pos 0, s)
    | some bytes ↦
        (do
          ready ← sys H (fd_can_write H s.dev.fd (pos 0))
          when ready (send_data bytes) (pure (pos 0)))
          s
  ]

  unfoldable pub libcm11a_check_wait_objs : Act H ℤ
  libcm11a_check_wait_objs = do rv ← check_read; when (rv ==ℤ pos 0) check_write (pure rv)
