-- ===== src/Tty/Pass.antt =====
-- A pass over the devices of tty_reader/tty_reader.zig reads each range of registers once, in order.
use renogy_x.Base.{ℕ, zero, suc, ◌+◌, ◌-◌, ◌*◌, ◌<◌, ◌≤◌, ltb, if◌then◌else◌}
use renogy_x.Base.{◌≡◌, refl, ap, sym, ◌∙◌, arith}
use renogy_x.Base.{Bool, true, false, Option, none, some, List, [], ◌∷◌}
use renogy_x.Base.{length, drop, drop-add}
use renogy_x.Tty.Devices.{IdInfo, Place, beginning, nth, next_device, counted, look_at, next_fuel}
use renogy_x.Tty.Devices.{get_next_id_info}
use renogy_x.Tty.Ranges.{
  Range, when_any, ranges_from, left, Found, drop-nth, drop-nth-none, ranges_from-skip,
  ranges_from-nil, length-nth, over, found,
}

module _ (items : List IdInfo) where
  left-next_device : (p : Place) → left items (next_device p) ≡ left items p
  unfolding next_device
  left-next_device p = go p.index p.sub_index
    where
      go :
          (i s : ℕ)
          → left items (
              if ltb 1 s
              then record { index = i + 1; sub_index = 0 }
              else record { index = i; sub_index = s })
            ≡ ranges_from s (drop i items)
      go i zero = refl
      go i (suc zero) = refl
      go i (suc (suc k)) =
          let far : ltb 1 (suc (suc k)) ≡ true = ground arith in
          ap
            (λ b. left items (
              if b
              then record { index = i + 1; sub_index = 0 }
              else record { index = i; sub_index = suc (suc k) }))
            far
          ∙ ap (ranges_from 0) (sym (drop-add i 1 (i + 1) items refl))
          ∙ sym (ranges_from-skip k (drop i items))

  Found-left :
      (p q : Place) (o : Option (Option IdInfo × Place))
      → left items p ≡ left items q
      → Found items q o
      → Found items p o
  Found-left p q o same (over nothing e) = over (same ∙ nothing) e
  Found-left p q o same (found x r first small e) = found x r (same ∙ first) small e

  abbrev place : ℕ → ℕ → Place
  place i s = record { index = i; sub_index = s }

  -- A range is read if it has registers, and left out if it has none.
  range-Found :
      (x : IdInfo) (i s count : ℕ) (o : Option (Option IdInfo × Place))
      → s ≤ 1
      → left items (place i s) ≡ when_any count (x, s + 1) (left items (place i (s + 1)))
      → Found items (place i (s + 1)) o
      → Found items (place i s) (if ltb 0 count then some (some x, place i (s + 1)) else o)
  range-Found x i s count o h = go (ltb 0 count)
    where
      later : List Range
      later = left items (place i (s + 1))

      go :
          (b : Bool)
          → left items (place i s) ≡ (if b then (x, s + 1) ∷ later else later)
          → Found items (place i (s + 1)) o
          → Found items (place i s) (if b then some (some x, place i (s + 1)) else o)
      go true first rec = found x (place i (s + 1)) first (omega arith) refl
      go false first rec = Found-left (place i s) (place i (s + 1)) o first rec

  -- A device is looked at from either of its ranges on.
  look_at-Found :
      (again : Place → Option (Option IdInfo × Place)) (x : IdInfo) (i s : ℕ)
      → nth items i ≡ some x
      → s ≤ 1
      → Found items (place i (s + 1)) (again (place i (s + 1)))
      → Found items (place i s) (look_at again x (place i s))
  unfolding look_at ranges_from
  look_at-Found again x i zero here h rec =
      let device = drop-nth items i x here in
      range-Found x i 0 x.read_count (again (place i 1)) h
        (ap (ranges_from 0) device
          ∙ ap (λ l. when_any x.read_count (x, 1) (ranges_from 1 l)) (sym device))
        rec
  look_at-Found again x i (suc zero) here h rec =
      let device = drop-nth items i x here in
      range-Found x i 1 x.read_input_count (again (place i 2)) h
        (ap (ranges_from 1) device
          ∙ ap (λ l. when_any x.read_input_count (x, 2) (ranges_from 2 l)) (sym device))
        rec
  look_at-Found again x i (suc (suc s)) here h rec = absurd (omega arith)

  next_device_small : (p : Place) → (next_device p).sub_index ≤ 1
  unfolding next_device
  next_device_small p = ground arith

  next_device_near :
      (p : Place) (fuel : ℕ)
      → p.sub_index ≤ 2
      → 2 * (length items - p.index) ≤ fuel + p.sub_index
      → 2 * (length items - (next_device p).index) ≤ fuel + (next_device p).sub_index
  unfolding next_device
  next_device_near p fuel small near = ground arith

  -- A call, where the calls of itself find what they should.
  round-Found :
      (again : Place → Option (Option IdInfo × Place)) (p : Place)
      → ((x : IdInfo)
          → nth items (next_device p).index ≡ some x
          → Found items (counted (next_device p)) (again (counted (next_device p))))
      → Found items p (elim (nth items (next_device p).index) [
        | none ↦ some (none, beginning)
        | some x ↦ look_at again x (next_device p)
      ])
  round-Found again p rec =
      Found-left p (next_device p) _ (sym (left-next_device p))
        (go (nth items (next_device p).index) refl)
    where
      q : Place
      q = next_device p

      go :
          (o : Option IdInfo)
          → nth items (next_device p).index ≡ o
          → Found items
              (next_device p)
              (elim o [ none ↦ some (none, beginning) | some x ↦ look_at again x (next_device p) ])
      go none e =
          over
            (ap (ranges_from q.sub_index) (drop-nth-none items q.index e)
              ∙ ranges_from-nil q.sub_index)
            refl
      go (some x) e = look_at-Found again x q.index q.sub_index e (next_device_small p) (rec x e)

  -- Enough calls of itself for what is left.
  next_fuel-Found :
      (fuel : ℕ) (p : Place)
      → p.sub_index ≤ 2
      → 2 * (length items - p.index) ≤ fuel + p.sub_index
      → Found items p (next_fuel (suc fuel) items p)
  unfolding next_fuel
  next_fuel-Found zero p small near = round-Found (next_fuel zero items) p (λ x e. absurd (
      omega (
        arith,
        length-nth items (next_device p).index x e,
        next_device_near p 0 small near,
        next_device_small p,
      )))
  next_fuel-Found (suc fuel) p small near = round-Found (next_fuel (suc fuel) items) p (λ x e.
      next_fuel-Found fuel (counted (next_device p)) (omega (arith, next_device_small p))
        (omega (arith, next_device_near p (suc fuel) small near)))

  pub get_next_id_info-Found :
      (p : Place) → p.sub_index ≤ 2 → Found items p (get_next_id_info items p)
  unfolding get_next_id_info
  get_next_id_info-Found p small = next_fuel-Found (2 * length items) p small (omega arith)

  -- What the calls find, one after the other, until one of them finds nothing.
  unfoldable pub pass : ℕ → Place → Option (List Range × Place)
  pass zero p = none
  pass (suc calls) p = elim (get_next_id_info items p) [
    | none ↦ none
    | some (none, q) ↦ some ([], q)
    | some (some x, q) ↦ elim (pass calls q) [
      | none ↦ none
      | some (ranges, r) ↦ some ((x, q.sub_index) ∷ ranges, r)
    ]
  ]

  pass-left :
      (calls : ℕ) (p : Place)
      → p.sub_index ≤ 2
      → length (left items p) < calls
      → pass calls p ≡ some (left items p, beginning)
  unfolding pass
  pass-left zero p small enough = absurd (omega (arith, enough))
  pass-left (suc calls) p small enough = go (get_next_id_info-Found p small) (pass-left calls)
    where
      go :
          Found items p (get_next_id_info items p)
          → ((q : Place)
              → q.sub_index ≤ 2
              → length (left items q) < calls
              → pass calls q ≡ some (left items q, beginning))
          → pass (suc calls) p ≡ some (left items p, beginning)
      go (over nothing e) rec = cc (nothing, e)
      go (found x q first small' e) rec =
          cc (rec q small' (omega (arith, ap length first, enough)), first, e)

-- From the beginning of the list the calls of `get_next_id_info` find each range that has registers,
-- once and in order, the registers of a device before its input registers; then they find nothing
-- and start at the beginning again.
pub pass-ranges :
    (items : List IdInfo) (calls : ℕ)
    → length (ranges_from 0 items) < calls
    → pass items calls beginning ≡ some (ranges_from 0 items, beginning)
pass-ranges items calls enough = pass-left items calls beginning (omega arith) enough
