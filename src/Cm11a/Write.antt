-- ===== src/Cm11a/Write.antt =====
-- Handing data to the driver: `libcm11a_write_data_crc` and `libcm11a_write_data` of
-- libcm11a/libcm11a.c.
use renogy_x.Base.{ℕ, ◌+◌, ◌%◌, ◌^◌, ◌==◌}
use renogy_x.Base.{if◌then◌else◌}
use renogy_x.Base.{true, false, ◌||◌, none, some, List, [], ◌∷◌}
use renogy_x.Base.{take}
use renogy_x.Base.{ℤ, pos}
use renogy_x.Base.{◌>>=◌, ◌>>◌, pure, fault, when}
use renogy_x.Cm11a.Device.{Host, Act, sys, set_dev, data_block}

-- The loop over the data: `crc` is an `unsigned int`.
unfoldable pub crc_loop : ℕ → List ℕ → ℕ
crc_loop crc [] = crc
crc_loop crc (b ∷ bs) = crc_loop ((crc + b) % 2 ^ 32) bs

module _ (H : Host) where
  -- `malloc` and `memcpy` of `data_bytes` bytes. A block that is not given is written through the
  -- null pointer, unless there is nothing to write.
  abbrev store_data : List ℕ → ℕ → Act H (Unit {0})
  store_data bytes data_bytes = do
    given ← sys H (H.malloc data_block data_bytes)
    set_dev H (λ d. record d {
      data_buf = if given then some (take data_bytes bytes) else none;
      data_bytes = data_bytes;
      data_sent = 0;
    })
    when (given || data_bytes == 0) (pure tt) fault

  unfoldable pub libcm11a_write_data_crc : List ℕ → ℕ → Act H ℤ
  unfolding crc_loop
  libcm11a_write_data_crc bytes data_bytes s = elim s.dev.data_buf [
    | some _ ↦ some (pos 1, s)
    | none ↦
        (do
          store_data bytes data_bytes
          set_dev H
              (λ d. record d { crc = crc_loop 0 (take data_bytes bytes) % 256; want_crc = true })
          pure (pos 0))
          s
  ]

  unfoldable pub libcm11a_write_data : List ℕ → ℕ → Act H ℤ
  libcm11a_write_data bytes data_bytes s = elim s.dev.data_buf [
    | some _ ↦ some (pos 1, s)
    | none ↦
        (do
          store_data bytes data_bytes
          set_dev H (λ d. record d { want_crc = false })
          pure (pos 0))
          s
  ]
