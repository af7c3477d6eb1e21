-- ===== src/X10/Dump.antt =====
-- `hexdump` of examples/x10_cm11/x10_cm11.c, as the text that it prints.
pub mod Reader
pub mod Roundtrip
use renogy_x.Base.{ℕ, zero, suc, ◌+◌, ◌-◌, ◌*◌, ◌/◌, ◌%◌, ltb, leb}
use renogy_x.Base.{if◌then◌else◌}
use renogy_x.Base.{true, false, ◌&&◌, Option, none, some, List, [], ◌∷◌, ◌++◌}
use renogy_x.Base.{length, take, drop, replicate}
use mathlib.Core.List.{map}
use renogy_x.Base.{ℤ, pos_part, codes}

-- A digit of `%x`.
unfoldable pub hex_digit : ℕ → ℕ
hex_digit d = if ltb d 10 then b'0' + d else b'a' + (d - 10)

-- The digits of `%0wx`, `w` of them at least. `fuel` bounds the digits; `n + width` more than one is
-- enough, as each round divides by 16 or counts a digit of the width.
unfoldable pub hex_fuel : ℕ → ℕ → ℕ → List ℕ
hex_fuel zero width n = []
hex_fuel (suc fuel) width n = elim (ltb n 16 && leb width 1) [
  | true ↦ hex_digit n ∷ []
  | false ↦ hex_fuel fuel (width - 1) (n / 16) ++ (hex_digit (n % 16) ∷ [])
]

unfoldable pub hex : ℕ → ℕ → List ℕ
unfolding hex_fuel
hex width n = hex_fuel (suc (n + width)) width n

-- The first inner loop: "%02x " of each byte.
unfoldable pub columns : List ℕ → List ℕ
columns [] = []
columns (b ∷ bs) = hex 2 b ++ (b' ' ∷ columns bs)

-- What the third inner loop prints for a byte.
unfoldable pub shown : ℕ → ℕ
shown b = if leb 0x20 b && ltb b 0x7F then b else b'.'

-- A round of the outer loop on the `thisline` bytes of `line`.
unfoldable pub dump_line : ℕ → List ℕ → List ℕ
dump_line offset line =
    hex 4 offset
    ++ (b' '
        ∷ (columns line
            ++ (replicate (3 * (16 - length line)) b' ' ++ (map shown line ++ codes "\n"))))

-- The outer loop. `line` is what is readable there: a read behind it is undefined. `fuel` bounds the
-- rounds; one more than the bytes that are left is enough, as each round prints one at least.
unfoldable pub dump_loop : ℕ → ℕ → ℕ → List ℕ → Option (List ℕ)
dump_loop zero offset len line = none
dump_loop (suc fuel) offset len line = elim (ltb offset len) [
  | false ↦ some []
  | true ↦
      let thisline = if ltb 16 (len - offset) then 16 else len - offset in
      elim (leb thisline (length line)) [
        | false ↦ none
        | true ↦ elim (dump_loop fuel (offset + thisline) len (drop thisline line)) [
          | none ↦ none
          | some rest ↦ some (dump_line offset (take thisline line) ++ rest)
        ]
      ]
]

-- A length that is not positive prints nothing.
unfoldable pub hexdump : List ℕ → ℤ → Option (List ℕ)
unfolding dump_loop
hexdump p len = dump_loop (suc (pos_part len)) 0 (pos_part len) p
