-- ===== src/X10/Dump/Roundtrip.antt =====
-- A dump of examples/x10_cm11/x10_cm11.c (`hexdump`) comes out whole and can be read back.
use mathlib.Core.List.{append_assoc, map}
use mathlib.Core.Option
use mathlib.Core.Option.{Option, none, some}
use renogy_x.Base.{ℕ, zero, suc, ◌+◌, ◌-◌, ◌*◌, ◌<◌, ◌≤◌, ltb}
use renogy_x.Base.{◌≡◌, refl, ap, sym, ◌∙◌, arith, if◌then◌else◌, ◌⊎◌, inl, inr, Bool-cases}
use renogy_x.Base.{true, false, List, [], ◌∷◌, ◌++◌}
use renogy_x.Base.{length, take, drop, replicate, length-take, length-drop, take-add}
use renogy_x.Base.{ℤ, pos_part}
use renogy_x.X10.Dump.{hex, columns, shown, dump_line, dump_loop, hexdump}
use renogy_x.X10.Dump.Reader.{
  offset, before, rest, read, Lacks, Lacks-append, AreBytes, addressed, unhex_all,
}
use renogy_x.X10.Dump.Reader.{
  unhex_all-hex_fuel, Lacks-hex_fuel, read-offset, read-rest, read-columns,
}

Lacks-replicate : (n : ℕ) → Lacks 0x0A (replicate n b' ')
Lacks-replicate zero = tt
Lacks-replicate (suc n) = (omega arith, Lacks-replicate n)

Lacks-shown : (line : List ℕ) → Lacks 0x0A (map shown line)
unfolding shown
Lacks-shown [] = tt
Lacks-shown (b ∷ line) = (ground arith, Lacks-shown line)

-- The end of a line whose bytes are read.
read_end :
    (address left : ℕ) (line cs : List ℕ)
    → read (before address left) (replicate (3 * left) b' ' ++ (map shown line ++ (0x0A ∷ cs)))
      ≡ read (offset 0) cs
unfolding read
read_end address zero [] cs = refl
read_end address zero (b ∷ line) cs =
    let (other, h) = Lacks-shown (b ∷ line) in ground (arith, read-rest (map shown line) cs h)
read_end address (suc left) line cs =
    let counted : 3 * suc left ≡ suc (3 * left + 2) = omega arith in
    let spaces = replicate (3 * left + 2) b' ' in
    ap (λ n. read (before address (suc left)) (replicate n b' ' ++ (map shown line ++ (0x0A ∷ cs))))
      counted
    ∙ ap (read rest) (sym (append_assoc spaces (map shown line) (0x0A ∷ cs)))
    ∙ read-rest (spaces ++ map shown line) cs
        (Lacks-append 0x0A spaces (map shown line) (Lacks-replicate _) (Lacks-shown line))

-- The parts of a line, with what follows it.
dump_line_parts :
    (address : ℕ) (line cs : List ℕ)
    → dump_line address line ++ cs
      ≡ hex 4 address
        ++ (b' '
            ∷ (columns line
                ++ (replicate (3 * (16 - length line)) b' ' ++ (map shown line ++ (0x0A ∷ cs)))))
unfolding dump_line
dump_line_parts address line cs =
    append_assoc (hex 4 address) _ cs
    ∙ ap (λ l. hex 4 address ++ (b' ' ∷ l))
        (append_assoc (columns line) _ cs
          ∙ ap (λ l. columns line ++ l)
              (append_assoc (replicate (3 * (16 - length line)) b' ') _ cs
                ∙ ap (λ l. replicate (3 * (16 - length line)) b' ' ++ l)
                    (append_assoc (map shown line) (0x0A ∷ []) cs)))

unhex_all-hex : (n : ℕ) → unhex_all 0 (hex 4 n) ≡ n
unfolding hex
unhex_all-hex n = unhex_all-hex_fuel (suc (n + 4)) 4 n (omega arith)

Lacks-hex : (n : ℕ) → Lacks b' ' (hex 4 n)
unfolding hex
Lacks-hex n = Lacks-hex_fuel b' ' (omega arith) (suc (n + 4)) 4 n

-- A line gives its bytes, each with its address.
read-dump_line :
    (address : ℕ) (line cs : List ℕ)
    → length line ≤ 16
    → AreBytes line
    → read (offset 0) (dump_line address line ++ cs) ≡ addressed address line ++ read (offset 0) cs
read-dump_line address line cs h bytes =
    let left = 16 - length line in
    let counted : 16 ≡ length line + left = omega arith in
    let after = replicate (3 * left) b' ' ++ (map shown line ++ (0x0A ∷ cs)) in
    ap (read (offset 0)) (dump_line_parts address line cs)
    ∙ read-offset 0 (hex 4 address) (columns line ++ after) (Lacks-hex address)
    ∙ ap (λ a. read (before a 16) (columns line ++ after)) (unhex_all-hex address)
    ∙ ap (λ n. read (before address n) (columns line ++ after)) counted
    ∙ read-columns address left line after bytes
    ∙ ap (λ l. addressed address line ++ l) (read_end (address + length line) left line cs)

addressed-append :
    (address : ℕ) (xs ys : List ℕ)
    → addressed address (xs ++ ys) ≡ addressed address xs ++ addressed (address + length xs) ys
addressed-append address [] ys = ap (λ a. addressed a ys) (omega arith)
addressed-append address (x ∷ xs) ys =
    ap (λ l. (address, x) ∷ l)
      (addressed-append (address + 1) xs ys
        ∙ ap (λ a. addressed (address + 1) xs ++ addressed a ys) (omega arith))

AreBytes-take : (n : ℕ) (bs : List ℕ) → AreBytes bs → AreBytes (take n bs)
AreBytes-take zero bs h = tt
AreBytes-take (suc n) [] h = tt
AreBytes-take (suc n) (b ∷ bs) (h, hs) = (h, AreBytes-take n bs hs)

AreBytes-drop : (n : ℕ) (bs : List ℕ) → AreBytes bs → AreBytes (drop n bs)
AreBytes-drop zero bs h = h
AreBytes-drop (suc n) [] h = tt
AreBytes-drop (suc n) (b ∷ bs) (h, hs) = AreBytes-drop n bs hs

-- The bytes that a round of the outer loop takes.
abbrev taken : ℕ → ℕ → ℕ
taken address len = if ltb 16 (len - address) then 16 else len - address

taken_bounds :
    (address len : ℕ)
    → (taken address len ≤ 16)
      × (taken address len ≤ len - address)
      × (address < len → 0 < taken address len)
taken_bounds address len = ground arith

-- A line in front of what the later rounds print.
put_line : ℕ → List ℕ → Option (List ℕ) → Option (List ℕ)
put_line address line none = none
put_line address line (some text) = some (dump_line address line ++ text)

read-put_line :
    (address : ℕ) (line : List ℕ) (o : Option (List ℕ)) (found : List (ℕ × ℕ))
    → length line ≤ 16
    → AreBytes line
    → Option.map (read (offset 0)) o ≡ some found
    → Option.map (read (offset 0)) (put_line address line o)
      ≡ some (addressed address line ++ found)
unfolding put_line
read-put_line address line none found h bytes e = cc e
read-put_line address line (some text) found h bytes e =
    cc (read-dump_line address line text h bytes, e)

dump_loop-round :
    (fuel address len : ℕ) (line : List ℕ)
    → address < len
    → len - address ≤ length line
    → let n = taken address len in
      dump_loop (suc fuel) address len line
      ≡ put_line address (take n line) (dump_loop fuel (address + n) len (drop n line))
unfolding dump_loop put_line
dump_loop-round fuel address len line more readable =
    let (_, le, _) = taken_bounds address len in ground (arith, le)

-- What is left to read behind the bytes of a line.
addressed_joined :
    (address n m k : ℕ) (line : List ℕ)
    → n ≤ length line
    → n + m ≡ k
    → addressed address (take n line) ++ addressed (address + n) (take m (drop n line))
      ≡ addressed address (take k line)
addressed_joined address n m k line h total =
    let size : length (take n line) ≡ n = omega (arith, length-take n line) in
    ap (λ l. addressed address (take n line) ++ addressed (address + l) (take m (drop n line)))
      (sym size)
    ∙ sym (addressed-append address (take n line) (take m (drop n line)))
    ∙ ap (addressed address) (take-add n m k line total)

dump_loop_done :
    (fuel address len : ℕ) (line : List ℕ)
    → len ≤ address
    → dump_loop (suc fuel) address len line ≡ some []
unfolding dump_loop
dump_loop_done fuel address len line done = ground arith

-- The outer loop, from any line on.
read-dump_loop :
    (fuel address len : ℕ) (line : List ℕ)
    → len - address < fuel
    → len - address ≤ length line
    → AreBytes line
    → Option.map (read (offset 0)) (dump_loop fuel address len line)
      ≡ some (addressed address (take (len - address) line))
unfolding read
read-dump_loop zero address len line enough readable bytes = absurd (omega arith)
read-dump_loop (suc fuel) address len line enough readable bytes =
    let n = taken address len in
    go (Bool-cases (ltb address len)) (read-dump_loop fuel (address + n) len (drop n line))
  where
    go :
        ((ltb address len ≡ true) ⊎ (ltb address len ≡ false))
        → (len - (address + taken address len) < fuel
            → len - (address + taken address len) ≤ length (drop (taken address len) line)
            → AreBytes (drop (taken address len) line)
            → Option.map
                (read (offset 0))
                (dump_loop fuel (address + taken address len) len (drop (taken address len) line))
              ≡ some (
                  addressed
                    (address + taken address len)
                    (take (len - (address + taken address len)) (drop (taken address len) line))))
        → Option.map (read (offset 0)) (dump_loop (suc fuel) address len line)
          ≡ some (addressed address (take (len - address) line))
    go (inl e) later =
        let n = taken address len in
        let (short, le, some_taken) = taken_bounds address len in
        let more : address < len = ground (arith, e) in
        let progress : 0 < n = some_taken more in
        ap (Option.map (read (offset 0))) (dump_loop-round fuel address len line more readable)
        ∙ read-put_line address (take n line) _ _ (omega (arith, length-take n line, short))
            (AreBytes-take n line bytes)
            (later (omega (arith, progress, le)) (omega (arith, length-drop n line, le))
              (AreBytes-drop n line bytes))
        ∙ ap some (
            addressed_joined address n (len - (address + n)) (len - address) line
              (omega (arith, le)) (omega (arith, le)))
    go (inr e) later =
        let none_left : len - address ≡ 0 = ground (arith, e) in
        ap (Option.map (read (offset 0))) (dump_loop_done fuel address len line (ground (arith, e)))
        ∙ ap (λ m. some (addressed address (take m line))) (sym none_left)

-- Where as many bytes can be read as are asked for, a dump comes out, and read back it gives
-- exactly these bytes, each with its address.
pub read-hexdump :
    (p : List ℕ) (len : ℤ)
    → pos_part len ≤ length p
    → AreBytes p
    → Option.map (read (offset 0)) (hexdump p len) ≡ some (addressed 0 (take (pos_part len) p))
unfolding hexdump
read-hexdump p len readable bytes =
    let all : pos_part len - 0 ≡ pos_part len = omega arith in
    read-dump_loop (suc (pos_part len)) 0 (pos_part len) p (omega arith) (omega arith) bytes
    ∙ ap (λ n. some (addressed 0 (take n p))) all
