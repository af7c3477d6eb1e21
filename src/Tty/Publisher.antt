-- ===== src/Tty/Publisher.antt =====
-- The messages of the publisher (tty_reader/tty_reader.zig, `process_tty_id_info`).
use renogy_x.Base.{ℕ, ◌+◌, ◌*◌, leb}
use renogy_x.Base.{if◌then◌else◌}
use renogy_x.Base.{Option, none, some, List, [], ◌∷◌, ◌++◌}
use renogy_x.Tty.Parse.{Parse}

module _ (P : Parse) where
  -- The loop over the registers.
  unfoldable pub out_regs : List ℕ → List ℕ
  out_regs [] = []
  out_regs (areg ∷ regs) = P.out_u16_le areg ++ out_regs regs

  -- The size is computed in the eight bits of `count`: `none` is the overflow.
  unfoldable pub msg_size : ℕ → Option ℕ
  msg_size count = if leb (12 + count * 2) 255 then some (12 + count * 2) else none

  -- What follows the header of four bytes.
  unfoldable pub body : (type id address count : ℕ) → List ℕ → List ℕ
  unfolding out_regs
  body type id address count regs =
      P.out_u16_le type
      ++ (P.out_u16_le id ++ (P.out_u16_le address ++ (P.out_u16_le count ++ out_regs regs)))

  -- The message of the registers that are read.
  unfoldable pub message : (type id address count : ℕ) → List ℕ → Option (List ℕ)
  unfolding msg_size body
  message type id address count regs = elim (msg_size count) [
    | none ↦ none
    | some size ↦ some (P.out_u16_le 0 ++ (P.out_u16_le size ++ body type id address count regs))
  ]
