-- ===== src/X10/Dump/Reader.antt =====
-- Reading a dump of examples/x10_cm11/x10_cm11.c (`hexdump`) back: each byte with its address.
use renogy_x.Base.{ℕ, zero, suc, ◌+◌, ◌-◌, ◌*◌, ◌/◌, ◌%◌, ◌<◌, ◌≤◌, ltb, leb, ◌==◌}
use renogy_x.Base.{◌≡◌, ◌≢◌, refl, ap, sym, ◌∙◌, arith, if◌then◌else◌}
use renogy_x.Base.{length, subst, Bool, true, false, ◌&&◌, List, [], ◌∷◌, ◌++◌}
use mathlib.Core.List.{append_assoc}
use renogy_x.X10.Dump.{hex_digit, hex_fuel, hex, columns}

-- Where the reader stands: in the offset, whose digits so far make `value`; before, in or behind one of
-- the columns, `left` more of which the line has; behind the last byte of the line.
pub data Reader : Type 0 where
  offset : (value : ℕ) → Reader
  before : (address left : ℕ) → Reader
  within : (address left high : ℕ) → Reader
  behind : (address left : ℕ) → Reader
  rest : Reader

unfoldable pub unhex : ℕ → ℕ
unhex c = if ltb c b'a' then c - b'0' else c - b'a' + 10

unfoldable pub read : Reader → List ℕ → List (ℕ × ℕ)
read r [] = []
read (offset value) (c ∷ cs) = elim (c == b' ') [
  | true ↦ read (before value 16) cs
  | false ↦ read (offset (value * 16 + unhex c)) cs
]
read (before address zero) (c ∷ cs) = elim (c == 0x0A) [
  | true ↦ read (offset 0) cs
  | false ↦ read rest cs
]
read (before address (suc left)) (c ∷ cs) = elim (c == b' ') [
  | true ↦ read rest cs
  | false ↦ read (within address left (unhex c)) cs
]
read (within address left high) (c ∷ cs) =
    (address, high * 16 + unhex c) ∷ read (behind (address + 1) left) cs
read (behind address left) (c ∷ cs) = read (before address left) cs
read rest (c ∷ cs) = elim (c == 0x0A) [ true ↦ read (offset 0) cs | false ↦ read rest cs ]

-- A list without a certain number.
abbrev pub Lacks : ℕ → List ℕ → Type 0
Lacks c [] = Unit
Lacks c (b ∷ bs) = (b ≢ c) × Lacks c bs

pub Lacks-append : (c : ℕ) (xs ys : List ℕ) → Lacks c xs → Lacks c ys → Lacks c (xs ++ ys)
Lacks-append c [] ys hx hy = hy
Lacks-append c (x ∷ xs) ys (h, hx) hy = (h, Lacks-append c xs ys hx hy)

pub unhex-hex_digit : (d : ℕ) → d < 16 → unhex (hex_digit d) ≡ d
unfolding unhex hex_digit
unhex-hex_digit d h = ground arith

hex_digit_visible : (d : ℕ) → b' ' < hex_digit d
unfolding hex_digit
hex_digit_visible d = ground arith

-- The number that digits make behind `value`.
unfoldable pub unhex_all : ℕ → List ℕ → ℕ
unhex_all value [] = value
unhex_all value (c ∷ cs) = unhex_all (value * 16 + unhex c) cs

unhex_all-append :
    (value : ℕ) (xs ys : List ℕ) → unhex_all value (xs ++ ys) ≡ unhex_all (unhex_all value xs) ys
unfolding unhex_all
unhex_all-append value [] ys = refl
unhex_all-append value (x ∷ xs) ys = unhex_all-append (value * 16 + unhex x) xs ys

-- The last digit of a number, and the digits in front of it.
abbrev hex_round : ℕ → ℕ → ℕ → Bool → List ℕ
hex_round fuel width n true = hex_digit n ∷ []
hex_round fuel width n false = hex_fuel fuel (width - 1) (n / 16) ++ (hex_digit (n % 16) ∷ [])

hex_fuel-round :
    (fuel width n : ℕ)
    → hex_fuel (suc fuel) width n ≡ hex_round fuel width n (ltb n 16 && leb width 1)
unfolding hex_fuel
hex_fuel-round fuel width n = ground arith

hex_more :
    (fuel width n : ℕ)
    → n + width < suc fuel
    → (ltb n 16 && leb width 1) ≡ false
    → n / 16 + (width - 1) < fuel
hex_more fuel width n h e = ground (arith, e)

pub unhex_all-hex_fuel :
    (fuel width n : ℕ) → n + width < fuel → unhex_all 0 (hex_fuel fuel width n) ≡ n
unfolding unhex_all
unhex_all-hex_fuel zero width n h = omega arith
unhex_all-hex_fuel (suc fuel) width n h =
    ap (unhex_all 0) (hex_fuel-round fuel width n)
    ∙ go (ltb n 16 && leb width 1) refl (unhex_all-hex_fuel fuel (width - 1) (n / 16))
  where
    go :
        (b : Bool)
        → (ltb n 16 && leb width 1) ≡ b
        → (n / 16 + (width - 1) < fuel → unhex_all 0 (hex_fuel fuel (width - 1) (n / 16)) ≡ n / 16)
        → unhex_all 0 (hex_round fuel width n b) ≡ n
    go true e rec = omega (arith, unhex-hex_digit n (ground (arith, e)))
    go false e rec =
        unhex_all-append 0 (hex_fuel fuel (width - 1) (n / 16)) (hex_digit (n % 16) ∷ [])
        ∙ omega (arith, rec (hex_more fuel width n h e), unhex-hex_digit (n % 16) (omega arith))

pub Lacks-hex_fuel : (c : ℕ) → c ≤ b' ' → (fuel width n : ℕ) → Lacks c (hex_fuel fuel width n)
unfolding hex_fuel
Lacks-hex_fuel c small zero width n = tt
Lacks-hex_fuel c small (suc fuel) width n =
    subst (Lacks c) (sym (hex_fuel-round fuel width n))
      (go (ltb n 16 && leb width 1) (Lacks-hex_fuel c small fuel (width - 1) (n / 16)))
  where
    go :
        (b : Bool)
        → Lacks c (hex_fuel fuel (width - 1) (n / 16))
        → Lacks c (hex_round fuel width n b)
    go true rec = (omega (arith, hex_digit_visible n), tt)
    go false rec = Lacks-append c _ _ rec (omega (arith, hex_digit_visible (n % 16)), tt)

-- Behind the digits of an offset the columns start.
pub read-offset :
    (value : ℕ) (ds cs : List ℕ)
    → Lacks b' ' ds
    → read (offset value) (ds ++ (b' ' ∷ cs)) ≡ read (before (unhex_all value ds) 16) cs
unfolding read unhex_all
read-offset value [] cs h = refl
read-offset value (d ∷ ds) cs (visible, h) =
    ground (arith, read-offset (value * 16 + unhex d) ds cs h)

-- The rest of a line is passed over.
pub read-rest :
    (xs cs : List ℕ) → Lacks 0x0A xs → read rest (xs ++ (0x0A ∷ cs)) ≡ read (offset 0) cs
unfolding read
read-rest [] cs h = refl
read-rest (x ∷ xs) cs (other, h) = ground (arith, read-rest xs cs h)

-- Bytes with the addresses from `address` on.
abbrev pub addressed : ℕ → List ℕ → List (ℕ × ℕ)
addressed address [] = []
addressed address (b ∷ bs) = (address, b) ∷ addressed (address + 1) bs

abbrev pub AreBytes : List ℕ → Type 0
AreBytes [] = Unit
AreBytes (b ∷ bs) = (b < 256) × AreBytes bs

hex_two :
    (fuel b : ℕ)
    → b < 256
    → hex_fuel (suc (suc fuel)) 2 b ≡ hex_digit (b / 16) ∷ hex_digit (b % 16) ∷ []
unfolding hex_fuel
hex_two fuel b h = ground arith

hex_byte : (b : ℕ) → b < 256 → hex 2 b ≡ hex_digit (b / 16) ∷ hex_digit (b % 16) ∷ []
unfolding hex
hex_byte b h =
    let fuel : suc (b + 2) ≡ suc (suc (suc b)) = omega arith in
    ap (λ f. hex_fuel f 2 b) fuel ∙ hex_two (suc b) b h

read-byte :
    (address left b : ℕ) (cs : List ℕ)
    → b < 256
    → read (before address (suc left)) (hex 2 b ++ (b' ' ∷ cs))
      ≡ (address, b) ∷ read (before (address + 1) left) cs
unfolding read
read-byte address left b cs h =
    ap (λ ds. read (before address (suc left)) (ds ++ (b' ' ∷ cs))) (hex_byte b h)
    ∙ go (hex_digit_visible (b / 16))
  where
    value : unhex (hex_digit (b / 16)) * 16 + unhex (hex_digit (b % 16)) ≡ b
    value =
        omega
          (arith, unhex-hex_digit (b / 16) (omega arith), unhex-hex_digit (b % 16) (omega arith))

    go :
        b' ' < hex_digit (b / 16)
        → read (before address (suc left)) (hex_digit (b / 16) ∷ hex_digit (b % 16) ∷ b' ' ∷ cs)
          ≡ (address, b) ∷ read (before (address + 1) left) cs
    go visible = ground (arith, value)

-- The columns of a line give its bytes.
pub read-columns :
    (address left : ℕ) (bs cs : List ℕ)
    → AreBytes bs
    → read (before address (length bs + left)) (columns bs ++ cs)
      ≡ addressed address bs ++ read (before (address + length bs) left) cs
unfolding columns
read-columns address left [] cs h =
    let same : 0 + left ≡ left = omega arith in
    let same' : address + 0 ≡ address = omega arith in cc (same, same')
read-columns address left (b ∷ bs) cs (h, hs) =
    let counted : suc (length bs) + left ≡ suc (length bs + left) = omega arith in
    let moved : (address + 1) + length bs ≡ address + suc (length bs) = omega arith in
    ap (λ n. read (before address n) ((hex 2 b ++ (b' ' ∷ columns bs)) ++ cs)) counted
    ∙ ap (read (before address (suc (length bs + left))))
        (append_assoc (hex 2 b) (b' ' ∷ columns bs) cs)
    ∙ read-byte address (length bs + left) b (columns bs ++ cs) h
    ∙ ap (λ l. (address, b) ∷ l)
        (read-columns (address + 1) left bs cs hs
          ∙ ap (λ n. addressed (address + 1) bs ++ read (before n left) cs) moved)
