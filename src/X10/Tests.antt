-- ===== src/X10/Tests.antt =====
-- A serial line with given answers, a run of the program on it, and its theorems at concrete inputs.
use renogy_x.Base.{ℕ, suc}
use renogy_x.Base.{◌≡◌, refl, arith}
use renogy_x.Base.{true, some, List, [], ◌∷◌, ◌++◌, take, drop, get_or, ℤ, pos, ◌+ℤ◌, timeval_of_ms}
use renogy_x.Cm11a.Device.{Host}
use renogy_x.Cm11a.Port.{open_port}
use renogy_x.X10.Loop.{
  handshake, switch_on, answer, on_readable, on_timeout, main_loop_round, main_loop, main,
}
use renogy_x.X10.Handshake.{attempts, IsWhole, wire-handshake, handshake-returns}
use mathlib.Core.Option
use mathlib.Core.Option.{Option}
use renogy_x.Base.{codes}
use renogy_x.X10.Dump.{hex_digit, hex_fuel, hex, columns, shown, dump_line, dump_loop, hexdump}
use renogy_x.X10.Dump.Reader.{offset, read}
use renogy_x.X10.Dump.Roundtrip.{read-hexdump}

-- What each `select` reports, the bytes that each read gets, the bytes sent, and the pauses.
record Line : Type 0 where
  ready : List ℕ
  incoming : List ℕ
  outgoing : List ℕ
  pauses : List ℕ

abbrev listed : ℕ → List ℤ → List ℤ
listed n r = take n r

abbrev line : Host
line = record {
  World = Line;
  Handle = ℕ;
  App = ℕ;
  select = λ nfds r w t l. (
    record { rv = pos (get_or l.ready 0 0); rfds = listed (get_or l.ready 0 0) r; wfds = [] },
    record l { ready = drop 1 l.ready },
  );
  sp_get_port_by_name = λ name l. ((pos 0, 7), l);
  sp_open = λ p l. (pos 0, l);
  sp_set_baudrate = λ p n l. (pos 0, l);
  sp_set_stopbits = λ p n l. (pos 0, l);
  sp_set_parity_none = λ p l. (pos 0, l);
  sp_set_bits = λ p n l. (pos 0, l);
  sp_get_port_handle = λ p l. ((pos 0, pos 3), l);
  sp_close = λ p l. l;
  sp_blocking_read =
      λ p n t l. ((pos 1, get_or l.incoming 0 0), record l { incoming = drop 1 l.incoming });
  sp_blocking_write = λ p bytes n t l. (pos n, record l { outgoing = l.outgoing ++ bytes });
  malloc = λ b n l. (true, l);
  free = λ b l. l;
}

abbrev pause : ℕ → Line → Line
pause n l = record l { pauses = n ∷ l.pauses }

-- A timeout, a poll signal and a time request. The first address is not confirmed.
abbrev start : Line
start = record {
  ready = 0 ∷ 1 ∷ 1 ∷ [];
  incoming = 0x5A ∷ 0x72 ∷ 0x55 ∷ 0x68 ∷ 0x55 ∷ 0x5A ∷ 0xA5 ∷ [];
  outgoing = [];
  pauses = [];
}

main_runs :
    main line pause 2 3 start
    ≡ some (record {
      ready = [];
      incoming = [];
      outgoing = 0x04 ∷ 0x6E ∷ 0x04 ∷ 0x6E ∷ 0x00 ∷ 0x06 ∷ 0x62 ∷ 0x00 ∷ 0xC3 ∷ 0x9B ∷ [];
      pauses = 10000 ∷ [];
    })
unfolding main main_loop main_loop_round on_timeout on_readable answer switch_on handshake open_port
    timeval_of_ms ◌+ℤ◌
main_runs = refl

-- The line after the first handshake.
abbrev shaken : Line
shaken = record start {
  incoming = 0x55 ∷ 0x68 ∷ 0x55 ∷ 0x5A ∷ 0xA5 ∷ [];
  outgoing = 0x04 ∷ 0x6E ∷ 0x04 ∷ 0x6E ∷ 0x00 ∷ [];
}

handshake_runs : handshake line pause 7 0x04 0x6E 2 start ≡ some (tt, shaken)
unfolding handshake
handshake_runs = refl

line-IsWhole : IsWhole line pause (λ l. l.outgoing)
line-IsWhole = record { of_two = λ p a b l. refl; of_one = λ p a l. refl; of_read = λ p l. refl }

wire-handshake_example :
    (k : ℕ) × (shaken.outgoing ≡ [] ++ (attempts 0x04 0x6E (suc k) ++ (0x00 ∷ [])))
wire-handshake_example =
    wire-handshake line pause (λ l. l.outgoing) line-IsWhole 7 0x04 0x6E 2 start shaken
      handshake_runs

handshake-returns_example : (l : Line) × (handshake line pause 7 0x04 0x6E 2 start ≡ some (tt, l))
handshake-returns_example = handshake-returns line pause 7 0x04 0x6E 1 2 start (omega arith) refl

-- Three bytes, the second of them a newline.
abbrev dumped : List ℕ
dumped = 0x41 ∷ 0x0A ∷ 0xFF ∷ []

hexdump_runs :
    hexdump dumped (pos 3)
    ≡ some (codes "0000 41 0a ff                                        A..\n")
unfolding hexdump dump_loop dump_line hex hex_fuel columns shown hex_digit
hexdump_runs = refl

read-hexdump_example :
    Option.map (read (offset 0)) (hexdump dumped (pos 3))
    ≡ some ((0, 0x41) ∷ (1, 0x0A) ∷ (2, 0xFF) ∷ [])
read-hexdump_example =
    read-hexdump dumped (pos 3) (omega arith) (omega arith, (omega arith, (omega arith, tt)))
