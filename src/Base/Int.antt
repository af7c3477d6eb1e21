-- ===== src/Base/Int.antt =====
-- The C `int`: signed integers over the native numbers, and the 32-bit wrap-around.
use Prim.Native.Nat.{ℕ, zero, suc, ◌+◌, ◌-◌, ◌*◌, ◌/◌, ◌%◌, ◌^◌, ◌≤◌, ◌<◌}
use mathlib.Core.Path.{◌≡◌}
use mathlib.Core.Logic.{◌↔◌}
use mathlib.Core.Bool.{Bool, true}
use native.Mathlib.Omega.{arith}
use renogy_x.Base.Tests.{ltb, leb, ◌==◌, if◌then◌else◌}

-- `negsuc n` is -(n + 1).
pub data ℤ : Type 0 where
  pos : ℕ → ℤ
  negsuc : ℕ → ℤ

abbrev pub pos_part : ℤ → ℕ
pos_part (pos n) = n
pos_part (negsuc n) = 0

abbrev pub neg_part : ℤ → ℕ
neg_part (pos n) = 0
neg_part (negsuc n) = suc n

-- a - b, as an integer.
abbrev pub sub_ℕ : ℕ → ℕ → ℤ
sub_ℕ a b = if leb b a then pos (a - b) else negsuc (b - a - 1)

infixl 65 ◌+ℤ◌ ◌-ℤ◌
infix 50 ◌≤ℤ◌ ◌==ℤ◌
unfoldable pub ◌+ℤ◌ : ℤ → ℤ → ℤ
a +ℤ b = sub_ℕ (pos_part a + pos_part b) (neg_part a + neg_part b)

unfoldable pub ◌-ℤ◌ : ℤ → ℤ → ℤ
a -ℤ b = sub_ℕ (pos_part a + neg_part b) (neg_part a + pos_part b)

abbrev pub ◌≤ℤ◌ : ℤ → ℤ → Type 0
a ≤ℤ b = pos_part a + neg_part b ≤ pos_part b + neg_part a

abbrev pub ltb_ℤ : ℤ → ℤ → Bool
ltb_ℤ a b = ltb (pos_part a + neg_part b) (pos_part b + neg_part a)

abbrev pub ◌==ℤ◌ : ℤ → ℤ → Bool
a ==ℤ b = pos_part a + neg_part b == pos_part b + neg_part a

pub ==ℤ_iff : (a b : ℤ) → ((a ==ℤ b) ≡ true) ↔ (a ≡ b)
==ℤ_iff a b = ground arith

-- The value that a 32-bit `int` holds after a computation whose exact result is the argument.
unfoldable pub wrap32 : ℤ → ℤ
wrap32 (pos n) = let m = n % 2 ^ 32 in if ltb m (2 ^ 31) then pos m else negsuc (2 ^ 32 - m - 1)
wrap32 (negsuc n) = let m = n % 2 ^ 32 in if ltb m (2 ^ 31) then negsuc m else pos (2 ^ 32 - m - 1)

-- The same bits read as an `unsigned int`.
unfoldable pub to_u32 : ℤ → ℕ
to_u32 (pos n) = n % 2 ^ 32
to_u32 (negsuc n) = 2 ^ 32 - 1 - n % 2 ^ 32

abbrev pub neg_ℕ : ℕ → ℤ
neg_ℕ zero = pos 0
neg_ℕ (suc n) = negsuc n

-- Division and remainder by a positive constant, towards zero.
unfoldable pub quot : ℤ → ℕ → ℤ
quot (pos n) d = pos (n / d)
quot (negsuc n) d = neg_ℕ (suc n / d)

unfoldable pub rem : ℤ → ℕ → ℤ
rem (pos n) d = pos (n % d)
rem (negsuc n) d = neg_ℕ (suc n % d)

abbrev pub mul_ℕ : ℤ → ℕ → ℤ
mul_ℕ (pos n) k = pos (n * k)
mul_ℕ (negsuc n) k = neg_ℕ (suc n * k)

-- A value of the type, which the wrap-around leaves alone.
abbrev pub Fits32 : ℤ → Type 0
Fits32 a = (pos_part a < 2 ^ 31) × (neg_part a ≤ 2 ^ 31)

pub wrap32_of_fits : (a : ℤ) → Fits32 a → wrap32 a ≡ a
unfolding wrap32
wrap32_of_fits (pos n) h = ground arith
wrap32_of_fits (negsuc n) h = ground arith

pub wrap32-Fits32 : (a : ℤ) → Fits32 (wrap32 a)
unfolding wrap32
wrap32-Fits32 (pos n) = ground arith
wrap32-Fits32 (negsuc n) = ground arith

-- The bits read as a signed number.
abbrev pub signed : ℕ → ℤ
signed m = if ltb m (2 ^ 31) then pos m else negsuc (2 ^ 32 - m - 1)

-- A wrapped value is settled by its bits, and the bits of a sum or difference by theirs.
pub wrap32-eq-signed : (a : ℤ) → wrap32 a ≡ signed (to_u32 a)
unfolding wrap32 to_u32
wrap32-eq-signed (pos n) = ground arith
wrap32-eq-signed (negsuc n) = ground arith

pub to_u32-wrap32 : (a : ℤ) → to_u32 (wrap32 a) ≡ to_u32 a
unfolding wrap32 to_u32
to_u32-wrap32 (pos n) = ground arith
to_u32-wrap32 (negsuc n) = ground arith

pub to_u32-add : (a b : ℤ) → to_u32 (a +ℤ b) ≡ (to_u32 a + to_u32 b) % 2 ^ 32
unfolding to_u32 ◌+ℤ◌
to_u32-add (pos a) (pos b) = ground arith
to_u32-add (pos a) (negsuc b) = ground arith
to_u32-add (negsuc a) (pos b) = ground arith
to_u32-add (negsuc a) (negsuc b) = ground arith

pub to_u32-sub : (a b : ℤ) → to_u32 (a -ℤ b) ≡ (to_u32 a + 2 ^ 32 - to_u32 b) % 2 ^ 32
unfolding to_u32 ◌-ℤ◌
to_u32-sub (pos a) (pos b) = ground arith
to_u32-sub (pos a) (negsuc b) = ground arith
to_u32-sub (negsuc a) (pos b) = ground arith
to_u32-sub (negsuc a) (negsuc b) = ground arith
