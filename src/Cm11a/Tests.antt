-- ===== src/Cm11a/Tests.antt =====
-- A concrete serial line, runs of the driver on it, and its theorems at inputs that meet their
-- hypotheses.
use renogy_x.Base.{ℕ, ◌+◌, ◌-◌, ◌*◌, ◌≤◌, leb}
use renogy_x.Base.{◌≡◌, refl, arith, if◌then◌else◌}
use renogy_x.Base.{Bool, true, false, none, some, List, [], ◌∷◌, ◌++◌}
use renogy_x.Base.{length, take, drop, replicate}
use renogy_x.Base.{ℤ, pos, ◌+ℤ◌}
use renogy_x.Base.{◌>>=◌, ◌>>◌}
use renogy_x.Base.{timeval_of_ms}
use renogy_x.Cm11a.Device.{Pointer, Host, Device, State, Act}
use renogy_x.Cm11a.Device.{call_pointer}
use renogy_x.Cm11a.Write.{crc_loop, libcm11a_write_data, libcm11a_write_data_crc}
use renogy_x.Cm11a.Wait.{fd_can_read, fd_can_write}
use renogy_x.Cm11a.Wait.{on_byte, check_read, after_write, send_data, check_write}
use renogy_x.Cm11a.Wait.{libcm11a_check_wait_objs}
use renogy_x.Cm11a.Device.{
  default_crc_ok, default_interface_ready, default_interface_poll, default_time_request,
  default_crc_not_ok, default_done_write,
}
use renogy_x.Cm11a.Port.{created, libcm11a_create, open_port}
use renogy_x.Cm11a.Invariant.{IsValid, write_data_crc-IsValid, check_wait_objs-IsValid}
use renogy_x.Cm11a.Checksum.{
  write_data_crc-eq-awaiting_crc, write_busy, on_byte-write_data_crc, chained_crc_lost,
  awaiting_crc, clear_crc,
}
use renogy_x.Cm11a.Wire.{IsWire, send_data-whole}

-- A line with the bytes that arrive, the bytes that went out, how many bytes each write takes,
-- whether there is memory, and what setting the speed answers.
record Line : Type 0 where
  incoming : List ℕ
  outgoing : List ℕ
  accepts : List ℕ
  memory : Bool
  speed : ℤ
  ports : ℕ

abbrev accept : List ℕ → ℕ → ℕ
accept [] n = n
accept (a ∷ _) n = if leb a n then a else n

abbrev serve_read : List ℕ → ℤ × ℕ
serve_read [] = (pos 0, 0)
serve_read (b ∷ _) = (pos 1, b)

-- The application's functions, by name: one that sends two bytes with a checksum.
data Callback : Type 0 where
  send_more : Callback

abbrev host : Host
host = record {
  World = Line;
  Handle = ℕ;
  App = Callback;
  select = λ nfds r w t l.
      (record { rv = pos (length r * (length l.incoming) + length w); rfds = r; wfds = w }, l);
  sp_get_port_by_name = λ name l. ((pos 0, 7), l);
  sp_open = λ p l. (pos 0, record l { ports = l.ports + 1 });
  sp_set_baudrate = λ p n l. (l.speed, l);
  sp_set_stopbits = λ p n l. (pos 0, l);
  sp_set_parity_none = λ p l. (pos 0, l);
  sp_set_bits = λ p n l. (pos 0, l);
  sp_get_port_handle = λ p l. ((pos 0, pos 3), l);
  sp_close = λ p l. record l { ports = l.ports - 1 };
  sp_blocking_read = λ p n t l. (serve_read l.incoming, record l { incoming = drop 1 l.incoming });
  sp_blocking_write = λ p bytes n t l. (
    pos (accept l.accepts n),
    record l {
      outgoing = l.outgoing ++ take (accept l.accepts n) bytes;
      accepts = drop 1 l.accepts;
    },
  );
  malloc = λ b n l. (l.memory, l);
  free = λ b l. l;
}

call : Callback → Act host ℤ
call send_more = libcm11a_write_data_crc host (0x06 ∷ 0x62 ∷ []) 2

abbrev quiet : Line
quiet = record {
  incoming = [];
  outgoing = [];
  accepts = [];
  memory = true;
  speed = pos 0;
  ports = 0;
}

abbrev device : Device host
device = record {
  version = 1;
  fd = pos 3;
  want_crc = false;
  crc = 0;
  data_sent = 0;
  data_bytes = 0;
  data_buf = none;
  port = 7;
  port_name = some (b'a' ∷ []);
  user = replicate 16 0;
  interface_ready = default_interface_ready;
  interface_poll = default_interface_poll;
  time_request = default_time_request;
  crc_ok = default_crc_ok;
  crc_not_ok = default_crc_not_ok;
  done_write = default_done_write;
}

abbrev idle : State host
idle = record { dev = device; world = quiet }

create_runs :
    libcm11a_create host 200 (some (b'a' ∷ [])) true quiet
    ≡ some (created device, record quiet { ports = 1 })
unfolding libcm11a_create open_port
create_runs = refl

-- The address 04 6E goes out in one piece, and the answer 0x72 is its checksum.
abbrev address_sent : State host
address_sent = record {
  dev = record device { crc = 0x72; want_crc = true };
  world = record quiet { outgoing = 0x04 ∷ 0x6E ∷ [] };
}

write_runs :
    (libcm11a_write_data_crc host (0x04 ∷ 0x6E ∷ []) 2 >> libcm11a_check_wait_objs host call) idle
    ≡ some (pos 0, address_sent)
unfolding libcm11a_write_data_crc libcm11a_check_wait_objs check_read check_write fd_can_read
    fd_can_write send_data after_write call_pointer crc_loop ◌+ℤ◌ timeval_of_ms
write_runs = refl

device-IsValid : IsValid device
device-IsValid = omega arith

calls-Keep :
    (f : Callback) (s : State host)
    → IsValid s.dev
    → (a : ℤ) (s' : State host) → call f s ≡ some (a, s')
    → IsValid s'.dev
unfolding call
calls-Keep send_more = write_data_crc-IsValid host (0x06 ∷ 0x62 ∷ []) 2 (omega arith)

accept-le : (accepts : List ℕ) (n : ℕ) → accept accepts n ≤ n
accept-le [] n = omega arith
accept-le (a ∷ _) n = ground arith

-- The address is queued and not yet sent.
abbrev queued : State host
queued = awaiting_crc host (0x04 ∷ 0x6E ∷ []) 2 idle

queued_runs : libcm11a_check_wait_objs host call queued ≡ some (pos 0, address_sent)
unfolding libcm11a_check_wait_objs check_read check_write fd_can_read fd_can_write send_data
    after_write call_pointer ◌+ℤ◌ timeval_of_ms
queued_runs = refl

check_wait_objs-IsValid_example : IsValid address_sent.dev
check_wait_objs-IsValid_example =
    check_wait_objs-IsValid host call calls-Keep queued (omega arith) (pos 0) address_sent
      queued_runs

write_data_crc-eq-awaiting_crc_runs :
    libcm11a_write_data_crc host (0x04 ∷ 0x6E ∷ []) 2 idle
    ≡ some (pos 0, awaiting_crc host (0x04 ∷ 0x6E ∷ []) 2 idle)
write_data_crc-eq-awaiting_crc_runs =
    write_data_crc-eq-awaiting_crc host (0x04 ∷ 0x6E ∷ []) 2 idle refl refl

queued-IsValid : IsValid queued.dev
queued-IsValid =
    write_data_crc-IsValid host (0x04 ∷ 0x6E ∷ []) 2 (omega arith) idle device-IsValid (pos 0)
      queued write_data_crc-eq-awaiting_crc_runs

write_busy_runs :
    (libcm11a_write_data_crc host (1 ∷ []) 1 queued ≡ some (pos 1, queued))
    × (libcm11a_write_data host (1 ∷ []) 1 queued ≡ some (pos 1, queued))
write_busy_runs = write_busy host (1 ∷ []) (0x04 ∷ 0x6E ∷ []) 1 queued refl

on_byte-write_data_crc_example :
    on_byte host call 0x72 queued
    ≡ (call_pointer host call default_crc_ok >>= clear_crc host) queued
on_byte-write_data_crc_example =
    on_byte-write_data_crc host call (0x04 ∷ 0x6E ∷ []) 2 0x72 idle queued (pos 0) refl refl
      write_data_crc-eq-awaiting_crc_runs

-- An application that sends its command as soon as the address is acknowledged.
abbrev eager : State host
eager = record idle {
  dev = record device { want_crc = true; crc = 0x72; crc_ok = Pointer.app send_more };
}

chained_crc_lost_runs :
    let t = awaiting_crc host (0x06 ∷ 0x62 ∷ []) 2 eager in
    on_byte host call 0x72 eager
    ≡ some (pos 0, record t { dev = record (t.dev) { want_crc = false } })
unfolding call
chained_crc_lost_runs =
    chained_crc_lost host call (0x06 ∷ 0x62 ∷ []) 2 0x72 eager send_more refl refl refl refl refl
      refl

abbrev line_of : Line → List ℕ
line_of l = l.outgoing

line_of-IsWire : IsWire host call line_of
line_of-IsWire = record { of_write = λ p bytes n t w. refl; of_free = λ b w. refl }

send_data-whole_example :
    (send_data host call (0x04 ∷ 0x6E ∷ []) queued
      ≡ call_pointer host call default_done_write address_sent)
    × (line_of address_sent.world ≡ [] ++ 0x04 ∷ 0x6E ∷ [])
send_data-whole_example =
    send_data-whole host call line_of line_of-IsWire (0x04 ∷ 0x6E ∷ []) queued refl refl
      (omega arith) refl
