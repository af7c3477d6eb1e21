-- ===== src/Tty/Requests.antt =====
-- When tty_reader/tty_reader.zig asks its devices: `tty_info_t`, `process_tty_id_info` and
-- `check_modbus`.
use renogy_x.Base.{ℕ, ◌+◌, ◌-◌, leb, ltb, ◌==◌, if◌then◌else◌}
use renogy_x.Base.{true, false, ◌&&◌, Option, none, some, List, [], ◌∷◌}
use renogy_x.Base.{ℤ, pos, ◌==ℤ◌}
use mathlib.Core.List.{map}
use renogy_x.Tty.Parse.{Parse}
use renogy_x.Tty.Publisher.{message}
use renogy_x.Tty.Peers.{Peer, add_send}
use renogy_x.Tty.Devices.{IdInfo, Place, get_next_id_info}

-- What the program calls. A read returns its result with the registers that it filled.
pub record Line : Type 1 where
  pub World : Type 0
  pub milli_timestamp : World → ℕ × World
  pub modbus_set_slave : ℕ → World → ℤ × World
  pub modbus_read_registers : ℕ → ℕ → World → (ℤ × List ℕ) × World
  pub modbus_read_input_registers : ℕ → ℕ → World → (ℤ × List ℕ) × World

-- The fields of `tty_info_t` that the loop changes, and the world. Times are in milliseconds and not
-- negative, as are the settings.
pub record TtyInfo (World : Type 0) : Type 0 where
  pub item_mstime : ℕ
  pub list_mstime : ℕ
  pub min_mstime : ℕ
  pub id_list : List IdInfo
  pub peer_list : List Peer
  pub place : Place
  pub last_modbus_time : Option ℕ
  pub next_modbus_time : Option ℕ
  pub first_modbus_time : Option ℕ
  pub world : World

-- How a call comes back: with a value, with an error that leaves the state, or not at all, because
-- a number overflows.
pub data Outcome (S A : Type 0) : Type 0 where
  returned : A → S → Outcome S A
  raised : S → Outcome S A
  crashed : Outcome S A

abbrev pub orelse : Option ℕ → ℕ → ℕ
orelse none d = d
orelse (some t) d = t

module _ (L : Line) (P : Parse) where
  abbrev pub Tty : Type 0
  Tty = TtyInfo L.World

  -- The loop over the peers. No message is made where there is none.
  unfoldable pub add_to_peers : Option (List ℕ) → List Peer → Option (List Peer)
  add_to_peers slice [] = some []
  add_to_peers none (peer ∷ peers) = none
  add_to_peers (some slice) (peer ∷ peers) = some (map (add_send slice) (peer ∷ peers))

  -- What follows a read of `count` registers, of which `err` came.
  unfoldable pub on_registers :
      (type id address count : ℕ) → ℤ → List ℕ → Tty → Outcome Tty (Unit {0})
  unfolding add_to_peers
  on_registers type id address count err regs info = elim (err ==ℤ pos count) [
    | false ↦ raised info
    | true ↦ elim (add_to_peers (message P type id address count regs) info.peer_list) [
      | none ↦ crashed
      | some peers ↦ returned tt (record info { peer_list = peers })
    ]
  ]

  -- The branch of `process_tty_id_info` for a sub index.
  unfoldable pub read_range : IdInfo → Tty → Outcome Tty (Unit {0})
  unfolding on_registers
  read_range item info =
      if info.place.sub_index == 1
      then (let (got, w) = L.modbus_read_registers item.read_address item.read_count info.world in
          on_registers 0 item.id item.read_address item.read_count got.0 got.1
            (record info { world = w }))
      else if info.place.sub_index == 2
      then (let (got, w) =
            L.modbus_read_input_registers item.read_input_address item.read_input_count
              info.world in
          on_registers 1 item.id item.read_input_address item.read_input_count got.0 got.1
            (record info { world = w }))
      else returned tt info

  unfoldable pub process_tty_id_info : IdInfo → Tty → Outcome Tty (Unit {0})
  unfolding read_range
  process_tty_id_info item info =
      let (err, w) = L.modbus_set_slave item.id info.world in
      if err ==ℤ pos 0
      then read_range item (record info { world = w })
      else raised (record info { world = w })

  -- The end of `check_modbus`, at the time `now`: the difference has to fit 32 bits, and no less than 0
  -- is returned.
  abbrev pub timeout_of : ℕ → ℕ → Tty → Outcome Tty ℕ
  timeout_of nmt now info =
      if leb (nmt - now) 0x7FFFFFFF && leb (now - nmt) 0x80000000
      then returned (nmt - now) info
      else crashed

  -- A request comes back.
  unfoldable pub after_request : ℕ → Outcome Tty (Unit {0}) → Outcome Tty ℕ
  after_request nmt (returned _ info) =
      let (now, w) = L.milli_timestamp info.world in
      timeout_of nmt now (record info { world = w; last_modbus_time = some now })
  after_request nmt (raised info) = raised info
  after_request nmt crashed = crashed

  -- It is time for a request, or for the next pass. The calls of `get_next_id_info` are enough.
  unfoldable pub on_time : ℕ → ℕ → ℕ → Tty → Outcome Tty ℕ
  unfolding after_request process_tty_id_info
  on_time now nmt fmt info = elim (get_next_id_info info.id_list info.place) [
    | none ↦ crashed
    | some (some item, place) ↦ after_request nmt (
        process_tty_id_info item
          (record info { place = place; next_modbus_time = some (now + info.item_mstime) }))
    | some (none, place) ↦
        let next = fmt + info.list_mstime in
        timeout_of next now (record info {
          place = place;
          next_modbus_time = some next;
          first_modbus_time = some next;
        })
  ]

  unfoldable pub check_modbus : Tty → Outcome Tty ℕ
  unfolding on_time
  check_modbus start =
      let (now, w) = L.milli_timestamp start.world in
      let info = record start { world = w } in
      let nmt = orelse info.next_modbus_time now in
      let fmt = orelse info.first_modbus_time now in
      let lmt = orelse info.last_modbus_time 0 in
      if leb nmt now && ltb now (lmt + info.min_mstime)
      then (let next = lmt + info.min_mstime in
          timeout_of next now
            (record info { next_modbus_time = some next; first_modbus_time = some next }))
      else if leb nmt now
      then on_time now nmt fmt info
      else timeout_of nmt now info
