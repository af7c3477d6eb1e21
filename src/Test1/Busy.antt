-- ===== src/Test1/Busy.antt =====
-- The client's ready signal while the driver is busy (libcm11a/test1.c).
use renogy_x.Base.{ℕ}
use renogy_x.Base.{◌≡◌, arith}
use renogy_x.Base.{some, List}
use renogy_x.Base.{pos}
use renogy_x.Cm11a.Device.{Host, State}
use renogy_x.Cm11a.Write.{libcm11a_write_data_crc}
use renogy_x.Test1.Client.{client, state_sent_address, state_sent_command}
use renogy_x.Test1.Client.{put_first, phase, send_command}
use renogy_x.Test1.Client.{test1_interface_ready}

module _ (H : Host) where
  -- A ready signal after the address, while the driver still has data to send: the client counts its
  -- command as sent, the driver keeps the data that it had, and the command is not handed over.
  pub command_lost :
      (sent : List ℕ) (s : State (client H))
      → phase H s ≡ state_sent_address
      → s.dev.data_buf ≡ some sent
      → test1_interface_ready H s
        ≡ some (
          pos 0,
          record s { dev = record (s.dev) { user = put_first state_sent_command s.dev.user } },
        )
  unfolding test1_interface_ready send_command libcm11a_write_data_crc
  command_lost sent s at busy = ground arith
