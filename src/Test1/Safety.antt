-- ===== src/Test1/Safety.antt =====
-- The client keeps the driver's struct well formed (libcm11a/test1.c on libcm11a/libcm11a.c).
use renogy_x.Base.{ℕ, arith}
use renogy_x.Base.{[], ◌∷◌}
use renogy_x.Base.{Keeps}
use renogy_x.Cm11a.Device.{Host}
use renogy_x.Cm11a.Invariant.{Valid}
use renogy_x.Cm11a.Invariant.{write_data_crc-IsValid, write_data-IsValid, check_wait_objs-IsValid}
use renogy_x.Test1.Client.{client, call_client, main_loop}
use renogy_x.Test1.Loop.{
  Message, address, command, confirmation, time_answer, hand, IsKept, call_client-Keeps,
  main_loop-Keeps,
}

module _ (H : Host) where
  -- Each message is as long as the client says.
  hand-IsValid : (m : Message) → Keeps (Valid (client H)) (hand H m)
  hand-IsValid address = write_data_crc-IsValid (client H) (0x04 ∷ 0x6E ∷ []) 2 (omega arith)
  hand-IsValid command = write_data_crc-IsValid (client H) (0x06 ∷ 0x62 ∷ []) 2 (omega arith)
  hand-IsValid confirmation = write_data-IsValid (client H) (0x00 ∷ []) 1 (omega arith)
  hand-IsValid time_answer = write_data-IsValid (client H) (0x9B ∷ []) 1 (omega arith)

  Valid-IsKept : IsKept H (Valid (client H))
  Valid-IsKept = record {
    of_phase = λ s p v. omega (arith, v.buffered);
    of_wait = λ s _ _ _ _ v. v;
    of_hand = hand-IsValid;
  }

  -- The loop leaves a well-formed struct well formed whenever it comes back.
  pub main_loop-IsValid : (fuel : ℕ) → Keeps (Valid (client H)) (main_loop H fuel)
  main_loop-IsValid = main_loop-Keeps H (Valid (client H)) Valid-IsKept (
      check_wait_objs-IsValid (client H) (call_client H)
        (call_client-Keeps H (Valid (client H)) Valid-IsKept))
