-- ===== src/Tty/Ranges.antt =====
-- The ranges of registers that tty_reader/tty_reader.zig reads (`get_next_id_info`).
use mathlib.Core.Option.{some-injective}
use renogy_x.Base.{ℕ, zero, suc, ◌+◌, ◌<◌, ◌≤◌, ltb, if◌then◌else◌}
use renogy_x.Base.{◌≡◌, refl, ap, sym, ◌∙◌, arith}
use renogy_x.Base.{Option, none, some, List, [], ◌∷◌}
use renogy_x.Base.{length, drop}
use renogy_x.Tty.Devices.{IdInfo, Place, beginning, nth}

-- A range to read: the device, and 1 for its registers or 2 for its input registers.
abbrev pub Range : Type 0
Range = IdInfo × ℕ

abbrev pub when_any : ℕ → Range → List Range → List Range
when_any count range ranges = if ltb 0 count then range ∷ ranges else ranges

-- The ranges of devices, those of the first device from a sub index on.
unfoldable pub ranges_from : ℕ → List IdInfo → List Range
ranges_from sub [] = []
ranges_from zero (x ∷ xs) =
    let later = ranges_from 0 xs in
    when_any x.read_count (x, 1) (when_any x.read_input_count (x, 2) later)
ranges_from (suc zero) (x ∷ xs) =
    let later = ranges_from 0 xs in when_any x.read_input_count (x, 2) later
ranges_from (suc (suc sub)) (x ∷ xs) = ranges_from 0 xs

-- What is left of a pass.
abbrev pub left : List IdInfo → Place → List Range
left items p = ranges_from p.sub_index (drop p.index items)

-- What a call finds: nothing more, or the first range that is left.
pub data Found (items : List IdInfo) (p : Place) (o : Option (Option IdInfo × Place)) : Type 0 where
  over : left items p ≡ [] → o ≡ some (none, beginning) → Found items p o
  found :
      (x : IdInfo) (q : Place)
      → left items p ≡ (x, q.sub_index) ∷ left items q
      → q.sub_index ≤ 2
      → o ≡ some (some x, q)
      → Found items p o

pub drop-nth :
    (items : List IdInfo) (i : ℕ) (x : IdInfo)
    → nth items i ≡ some x
    → drop i items ≡ x ∷ drop (i + 1) items
drop-nth [] i x e = cc e
drop-nth (y ∷ ys) zero x e = ap (λ h. h ∷ ys) (some-injective y x e)
drop-nth (y ∷ ys) (suc i) x e =
    let moved : suc i + 1 ≡ suc (i + 1) = omega arith in
    drop-nth ys i x e ∙ ap (λ k. x ∷ drop k (y ∷ ys)) (sym moved)

pub drop-nth-none : (items : List IdInfo) (i : ℕ) → nth items i ≡ none → drop i items ≡ []
drop-nth-none [] zero e = refl
drop-nth-none [] (suc i) e = refl
drop-nth-none (y ∷ ys) zero e = cc e
drop-nth-none (y ∷ ys) (suc i) e = drop-nth-none ys i e

pub ranges_from-skip :
    (k : ℕ) (xs : List IdInfo) → ranges_from (suc (suc k)) xs ≡ ranges_from 0 (drop 1 xs)
unfolding ranges_from
ranges_from-skip k [] = refl
ranges_from-skip k (x ∷ xs) = refl

pub ranges_from-nil : (s : ℕ) → ranges_from s [] ≡ []
unfolding ranges_from
ranges_from-nil s = refl

pub length-nth :
    (items : List IdInfo) (i : ℕ) (x : IdInfo) → nth items i ≡ some x → i < length items
length-nth [] i x e = cc e
length-nth (y ∷ ys) zero x e = omega arith
length-nth (y ∷ ys) (suc i) x e = omega (arith, length-nth ys i x e)
