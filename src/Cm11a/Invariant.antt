-- ===== src/Cm11a/Invariant.antt =====
-- The well-formedness of the driver's struct, and that every operation of libcm11a/libcm11a.c keeps it.
use renogy_x.Base.{ℕ, ◌≤◌, ◌<◌}
use renogy_x.Base.{◌≡◌, arith}
use renogy_x.Base.{Option, none, some, List, []}
use renogy_x.Base.{length, length-take}
use renogy_x.Base.{ℤ}
use renogy_x.Base.{Keeps}
use renogy_x.Cm11a.Device.{Cm11a, Host, State, Act}
use renogy_x.Cm11a.Write.{libcm11a_write_data, libcm11a_write_data_crc}
use renogy_x.Cm11a.Wait.{libcm11a_check_wait_objs}
use renogy_x.Cm11a.Served.{check_wait_objs-Keeps}
use renogy_x.Cm11a.Serving.{IsStable, call_pointer-Keeps}

abbrev pub bytes_of : Option (List ℕ) → List ℕ
bytes_of none = []
bytes_of (some bytes) = bytes

-- The counters describe the data at hand, and the checksum is a byte.
pub record IsValid {App Handle : Type 0} (d : Cm11a App Handle) : Type 0 where
  pub buffered : length (bytes_of d.data_buf) ≡ d.data_bytes
  pub sent_le : d.data_sent ≤ d.data_bytes
  pub crc_byte : d.crc < 256

module _ (H : Host) where
  abbrev pub Valid : State H → Type 0
  Valid s = IsValid s.dev

  -- What the driver relies on: each function of the application, which may call the driver and may set
  -- the struct, leaves a well-formed struct well formed.
  abbrev pub CallsKeep : (H.App → Act H ℤ) → Type 0
  CallsKeep call = (f : H.App) → Keeps Valid (call f)

  -- Data handed to a free driver leaves it well formed, if the caller's buffer is as long as said.
  pub write_data_crc-IsValid :
      (bytes : List ℕ) (n : ℕ) → n ≤ length bytes → Keeps Valid (libcm11a_write_data_crc H bytes n)
  unfolding libcm11a_write_data_crc
  write_data_crc-IsValid bytes n h s v a s' e = ground (arith, length-take n bytes)

  pub write_data-IsValid :
      (bytes : List ℕ) (n : ℕ) → n ≤ length bytes → Keeps Valid (libcm11a_write_data H bytes n)
  unfolding libcm11a_write_data
  write_data-IsValid bytes n h s v a s' e = ground (arith, length-take n bytes)

  module _ (call : H.App → Act H ℤ) (calls : CallsKeep call) where
    Valid-IsStable : IsStable H call Valid
    Valid-IsStable = record {
      of_select = λ s _ _ _ _ v. v;
      of_read = λ s _ v. v;
      of_answer = λ s v. omega (arith, v.buffered);
      of_call = call_pointer-Keeps H call Valid calls;
      of_refused = λ s _ v _ _. v;
      of_part = λ s _ n v _ _ _ h. omega (arith, v.buffered);
      of_whole = λ s _ n v _ _ _ _. ground arith;
    }

    -- Where each function of the application keeps the struct well formed, serving the port keeps it well
    -- formed, whatever arrives and whatever is written.
    pub check_wait_objs-IsValid : Keeps Valid (libcm11a_check_wait_objs H call)
    check_wait_objs-IsValid = check_wait_objs-Keeps H call Valid Valid-IsStable
