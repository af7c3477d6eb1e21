-- ===== src/Cm11a/Port.antt =====
-- Opening and closing the port: `libcm11a_create` and `libcm11a_destroy` of libcm11a/libcm11a.c.
use renogy_x.Cm11a.Device.{default_done_write}
use renogy_x.Cm11a.Device.{default_crc_not_ok}
use renogy_x.Cm11a.Device.{default_crc_ok}
use renogy_x.Cm11a.Device.{default_time_request}
use renogy_x.Cm11a.Device.{default_interface_poll}
use renogy_x.Base.{if◌then◌else◌}
use renogy_x.Base.{◌+◌}
use renogy_x.Cm11a.Device.{default_interface_ready}
use renogy_x.Base.{length, replicate}
use renogy_x.Cm11a.Device.{device_block}
use renogy_x.Cm11a.Device.{Device, port_name_block}
use renogy_x.Base.{Bool}
use renogy_x.Base.{ℕ}
use renogy_x.Base.{true, false, Option, none, some, List}
use renogy_x.Base.{ℤ, pos, ◌==ℤ◌}
use renogy_x.Cm11a.Device.{Host}

-- `SP_OK`
abbrev pub sp_ok : ℤ
sp_ok = pos 0

-- `LIBCM11A_VERSION`
abbrev pub libcm11a_version : ℕ
libcm11a_version = 1

-- The result of `libcm11a_create`: its return value 1 with no struct, or 0 with the new struct.
pub data Created (D : Type 0) : Type 0 where
  failed : Created D
  created : D → Created D

module _ (H : Host) where
  abbrev Sys : Type 0 → Type 0
  Sys A = H.World → A × H.World

  -- The nested tests: a step that does not return `SP_OK` ends the chain.
  abbrev ok_then : {A : Type 0} → ℤ → A → Sys A → Sys A
  ok_then error stop next w = elim (error ==ℤ sp_ok) [ true ↦ next w | false ↦ (stop, w) ]

  -- `port` and `fd` once `ok` is 1; `none` where it stays 0.
  unfoldable pub open_port : List ℕ → Sys (Option (H.Handle × ℤ))
  open_port name w0 =
      let ((e0, port), w1) = H.sp_get_port_by_name name w0 in
      ok_then e0 none
        (λ w.
          let (e1, w2) = H.sp_open port w in
          ok_then e1 none
            (λ w.
              let (e2, w3) = H.sp_set_baudrate port 4800 w in
              ok_then e2 none
                (λ w.
                  let (e3, w4) = H.sp_set_stopbits port 1 w in
                  ok_then e3 none
                    (λ w.
                      let (e4, w5) = H.sp_set_parity_none port w in
                      ok_then e4 none
                        (λ w.
                          let (e5, w6) = H.sp_set_bits port 8 w in
                          ok_then e5 none
                            (λ w.
                              let ((e6, fd), w7) = H.sp_get_port_handle port w in
                              ok_then e6 none (λ w. (some (port, fd), w)) w7)
                            w6)
                        w5)
                    w4)
                w3)
            w2)
        w1

  -- The struct that `calloc` clears and the function fills.
  abbrev fresh : ℤ → H.Handle → Option (List ℕ) → Device H
  fresh fd port port_name = record {
    version = libcm11a_version;
    fd = fd;
    want_crc = false;
    crc = 0;
    data_sent = 0;
    data_bytes = 0;
    data_buf = none;
    port = port;
    port_name = port_name;
    user = replicate 16 0;
    interface_ready = default_interface_ready;
    interface_poll = default_interface_poll;
    time_request = default_time_request;
    crc_ok = default_crc_ok;
    crc_not_ok = default_crc_not_ok;
    done_write = default_done_write;
  }

  abbrev strdup : List ℕ → Sys (Option (List ℕ))
  strdup name w =
      let (given, w') = H.malloc port_name_block (length name + 1) w in
      (if given then some name else none, w')

  -- `size` is `sizeof(struct libcm11a_t)`. Where `calloc` fails, the code reads `self->port`
  -- through the null pointer `self`.
  abbrev fill : ℕ → List ℕ → H.Handle × ℤ → H.World → Option (Created (Device H) × H.World)
  fill size name (port, fd) w =
      let (given, w1) = H.malloc device_block size w in
      elim given [
        | true ↦ let (copy, w2) = strdup name w1 in some (created (fresh fd port copy), w2)
        | false ↦ none
      ]

  -- The name, and where to store the struct, may be null.
  unfoldable pub libcm11a_create :
      ℕ → Option (List ℕ) → Bool → H.World → Option (Created (Device H) × H.World)
  libcm11a_create size none place w = some (failed, w)
  libcm11a_create size (some name) false w = some (failed, w)
  libcm11a_create size (some name) true w =
      let (opened, w') = open_port name w in
      elim opened [ none ↦ some (failed, w') | some p ↦ fill size name p w' ]

  -- The struct may be null; the call always returns 0.
  unfoldable pub libcm11a_destroy : Option (Device H) → H.World → ℤ × H.World
  libcm11a_destroy none w = (pos 0, w)
  libcm11a_destroy (some d) w =
      (pos 0, H.free device_block (H.free port_name_block (H.sp_close d.port w)))
