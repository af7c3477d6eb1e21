-- ===== src/Base/Text.antt =====
-- C strings as lists of bytes without the closing NUL: literals, `%d`, `%10.10u`, `snprintf` into a
-- buffer of a given size, `strlen` of a buffer, `strstr`.
use Prim.Native.Char.{code}
use Prim.Native.String.{String}
use Prim.Native.Nat.{ℕ, zero, suc, ◌+◌, ◌-◌, ◌*◌, ◌/◌, ◌%◌, ◌^◌, ◌≤◌, ◌<◌}
use mathlib.Core.Path.{◌≡◌, refl}
use mathlib.Core.Logic.{inl, inr}
use mathlib.Core.Bool.{Bool, true, false, ◌&&◌, ◌||◌}
use mathlib.Core.List.{List, [], ◌∷◌, ◌++◌}
use native.Mathlib.Nat.{pow-suc}
use native.Mathlib.Omega.{arith}
use renogy_x.Base.Tests.{ltb→lt, lt→ltb, ltb, ◌==◌, if◌then◌else◌, Bool-cases}
use renogy_x.Base.Lists.{length, take, length-append}

abbrev pub codes : String → List ℕ
codes String.[] = []
codes (String.◌∷◌ c s) = code c ∷ codes s

-- A decimal digit.
abbrev pub digit : ℕ → ℕ
digit n = b'0' + n % 10

-- The last `k` decimal digits, the first of them zeros where the number is shorter.
unfoldable pub padded : ℕ → ℕ → List ℕ
padded zero n = []
padded (suc k) n = padded k (n / 10) ++ (digit n ∷ [])

-- `fuel` bounds the digits; the number itself is enough, as one round divides by ten.
unfoldable pub decimal_fuel : ℕ → ℕ → List ℕ
decimal_fuel zero n = []
decimal_fuel (suc fuel) n = elim (ltb n 10) [
  | true ↦ digit n ∷ []
  | false ↦ decimal_fuel fuel (n / 10) ++ (digit n ∷ [])
]

-- `%d` of a number that is not negative.
unfoldable pub decimal : ℕ → List ℕ
unfolding decimal_fuel
decimal n = decimal_fuel (suc n) n

-- Reading a number back, digit by digit, behind what has been read.
unfoldable pub read_digits : ℕ → List ℕ → ℕ
read_digits acc [] = acc
read_digits acc (d ∷ ds) = read_digits (acc * 10 + (d - b'0')) ds

-- `snprintf` into `size` bytes keeps room for the NUL.
abbrev pub printed : ℕ → List ℕ → List ℕ
printed size text = take (size - 1) text

-- The string that starts a buffer: its bytes up to the first NUL.
unfoldable pub c_str : List ℕ → List ℕ
c_str [] = []
c_str (b ∷ bs) = let rest = c_str bs in if b == 0 then [] else b ∷ rest

abbrev pub is_prefix : List ℕ → List ℕ → Bool
is_prefix [] text = true
is_prefix (c ∷ cs) [] = false
is_prefix (c ∷ cs) (b ∷ bs) = (c == b) && is_prefix cs bs

-- `strstr(text, word) != NULL`
unfoldable pub occurs : List ℕ → List ℕ → Bool
occurs word [] = is_prefix word []
occurs word (b ∷ bs) = is_prefix word (b ∷ bs) || occurs word bs

pub length-padded : (k n : ℕ) → length (padded k n) ≡ k
unfolding padded
length-padded zero n = refl
length-padded (suc k) n =
    omega (arith, length-append (padded k (n / 10)) (digit n ∷ []), length-padded k (n / 10))

decimal_small : (fuel n : ℕ) → ltb n 10 ≡ true → decimal_fuel (suc fuel) n ≡ digit n ∷ []
unfolding decimal_fuel
decimal_small fuel n h = ground arith

decimal_large :
    (fuel n : ℕ)
    → ltb n 10 ≡ false
    → decimal_fuel (suc fuel) n ≡ decimal_fuel fuel (n / 10) ++ (digit n ∷ [])
unfolding decimal_fuel
decimal_large fuel n h = ground arith

-- A number below ten to the power `k + 1` has at most `k + 1` digits.
length-decimal_fuel : (k fuel n : ℕ) → n < 10 ^ suc k → length (decimal_fuel fuel n) ≤ suc k
length-decimal_fuel k zero n h = unfold decimal_fuel in omega arith
length-decimal_fuel zero (suc fuel) n h =
    rw (decimal_small fuel n (lt→ltb n 10 (omega arith))) (omega arith)
length-decimal_fuel (suc k) (suc fuel) n h = elim (Bool-cases (ltb n 10)) [
  | inl small ↦ rw (decimal_small fuel n small) (omega arith)
  | inr large ↦ rw (decimal_large fuel n large) (
      omega (
        arith,
        length-append (decimal_fuel fuel (n / 10)) (digit n ∷ []),
        length-decimal_fuel k fuel (n / 10) (omega (arith, pow-suc 10 (suc k))),
      ))
]

pub length-decimal : (k n : ℕ) → n < 10 ^ suc k → length (decimal n) ≤ suc k
unfolding decimal
length-decimal k n h = length-decimal_fuel k (suc n) n h

read_digits-append :
    (acc : ℕ) (xs ys : List ℕ) → read_digits acc (xs ++ ys) ≡ read_digits (read_digits acc xs) ys
unfolding read_digits
read_digits-append acc [] ys = refl
read_digits-append acc (x ∷ xs) ys = read_digits-append (acc * 10 + (x - b'0')) xs ys

read_last : {r n : ℕ} → r ≡ n / 10 → read_digits r (digit n ∷ []) ≡ n
unfolding read_digits
read_last e = omega arith

read_digits-decimal_fuel : (fuel n : ℕ) → n < fuel → read_digits 0 (decimal_fuel fuel n) ≡ n
read_digits-decimal_fuel zero n h = absurd (omega arith)
read_digits-decimal_fuel (suc fuel) n h = elim (Bool-cases (ltb n 10)) [
  | inl small ↦
      let b : n < 10 = ltb→lt n 10 small in
      rw (decimal_small fuel n small) (read_last {r = 0} (omega arith))
  | inr large ↦
      let b : 9 < n = ground (arith, large) in
      rw (decimal_large fuel n large, read_digits-append)
        (read_last (read_digits-decimal_fuel fuel (n / 10) (omega arith)))
]

-- What `%d` prints reads back as the number.
pub read_digits-decimal : (n : ℕ) → read_digits 0 (decimal n) ≡ n
unfolding decimal
read_digits-decimal n = read_digits-decimal_fuel (suc n) n (omega arith)
