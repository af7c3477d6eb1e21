-- ===== src/Tty/Devices.antt =====
-- The devices of tty_reader/tty_reader.zig and the order in which they are read: `tty_id_info_t` and
-- `get_next_id_info`.
use renogy_x.Base.{ℕ, zero, suc, ◌+◌, ◌*◌, ltb, ◌==◌, if◌then◌else◌}
use renogy_x.Base.{◌&&◌, Option, none, some, List, [], ◌∷◌}
use renogy_x.Base.{length}

-- `tty_id_info_t`: the two ranges of registers that are read of a device.
pub record IdInfo : Type 0 where
  pub id : ℕ
  pub read_address : ℕ
  pub read_count : ℕ
  pub read_input_address : ℕ
  pub read_input_count : ℕ

-- `id_list_index` and `id_list_sub_index`
pub record Place : Type 0 where
  pub index : ℕ
  pub sub_index : ℕ

abbrev pub beginning : Place
beginning = record { index = 0; sub_index = 0 }

abbrev pub nth : List IdInfo → ℕ → Option IdInfo
nth [] i = none
nth (x ∷ xs) zero = some x
nth (x ∷ xs) (suc i) = nth xs i

-- The first `if`.
unfoldable pub next_device : Place → Place
next_device p = if ltb 1 p.sub_index then record { index = p.index + 1; sub_index = 0 } else p

abbrev pub counted : Place → Place
counted p = record p { sub_index = p.sub_index + 1 }

-- The other `if`s, before the function calls itself.
unfoldable pub look_at :
    (Place → Option (Option IdInfo × Place)) → IdInfo → Place → Option (Option IdInfo × Place)
look_at again item p =
    if p.sub_index == 0 && ltb 0 item.read_count
    then some (some item, counted p)
    else if p.sub_index == 1 && ltb 0 item.read_input_count
    then some (some item, counted p)
    else again (counted p)

-- `fuel` bounds the calls of itself.
unfoldable pub next_fuel : ℕ → List IdInfo → Place → Option (Option IdInfo × Place)
unfolding next_device look_at
next_fuel zero items p = none
next_fuel (suc fuel) items p =
    let q = next_device p in
    elim (nth items q.index) [
      | none ↦ some (none, beginning)
      | some item ↦ look_at (next_fuel fuel items) item q
    ]

-- One call more than twice the devices is enough: each call moves on by one of the two ranges.
unfoldable pub get_next_id_info : List IdInfo → Place → Option (Option IdInfo × Place)
unfolding next_fuel
get_next_id_info items p = next_fuel (suc (2 * length items)) items p
