-- ===== src/Tty/Parse.antt =====
-- What the programs of tty_reader use of the module `parse`, which is in a submodule: numbers of 16
-- bits are written to, and numbers of 16 and of 32 bits read from, a sequence of bytes.
use renogy_x.Base.{ℕ, ◌+◌, ◌*◌, ◌^◌, ◌<◌, ◌≤◌}
use renogy_x.Base.{◌≡◌}
use renogy_x.Base.{Bool, true, List, ◌++◌}
use renogy_x.Base.{length}

-- `out_u16_le` as the bytes that it adds, `in_u16_le` and `in_u32_le` as the number with what is left,
-- `in_u8_skip` as what is left, and `check_rem` as whether so many bytes are left, an error if not.
pub record Parse : Type 0 where
  pub out_u16_le : ℕ → List ℕ
  pub in_u16_le : List ℕ → ℕ × List ℕ
  pub in_u32_le : List ℕ → ℕ × List ℕ
  pub in_u8_skip : ℕ → List ℕ → List ℕ
  pub check_rem : ℕ → List ℕ → Bool

-- A number takes two bytes and is read back, whatever follows; two of them are read as one of four bytes,
-- the lower half first.
pub record IsParse (P : Parse) : Type 0 where
  pub size : (n : ℕ) → length (P.out_u16_le n) ≡ 2
  pub back : (n : ℕ) (rest : List ℕ) → n < 2 ^ 16 → P.in_u16_le (P.out_u16_le n ++ rest) ≡ (n, rest)
  pub both :
      (low high : ℕ) (rest : List ℕ)
      → low < 2 ^ 16
      → high < 2 ^ 16
      → P.in_u32_le (P.out_u16_le low ++ (P.out_u16_le high ++ rest)) ≡ (high * 65536 + low, rest)
  pub skip : (n : ℕ) (bs rest : List ℕ) → length bs ≡ n → P.in_u8_skip n (bs ++ rest) ≡ rest
  pub enough : (n : ℕ) (bs : List ℕ) → n ≤ length bs → P.check_rem n bs ≡ true
