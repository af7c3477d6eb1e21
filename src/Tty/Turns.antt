-- ===== src/Tty/Turns.antt =====
-- What a call of `check_modbus` of tty_reader/tty_reader.zig does: it waits, or it makes a request.
use renogy_x.Base.{ℕ, zero, suc, ◌+◌, ◌-◌, ◌<◌, ◌≤◌, leb, ltb, ◌==◌, if◌then◌else◌}
use renogy_x.Base.{◌≡◌, refl, ap, subst, sym, arith, ◌⊎◌, inl, inr}
use renogy_x.Base.{Bool, true, false, ◌&&◌, Option, none, some, List, [], ◌∷◌, length, drop}
use renogy_x.Base.{ℤ, pos, ◌==ℤ◌}
use renogy_x.Tty.Parse.{Parse}
use renogy_x.Tty.Publisher.{message}
use renogy_x.Tty.Peers.{Peer}
use renogy_x.Tty.Devices.{IdInfo, Place, beginning, get_next_id_info}
use renogy_x.Tty.Ranges.{Range, ranges_from, left, Found, over, found}
use renogy_x.Tty.Pass.{get_next_id_info-Found}
use renogy_x.Tty.Requests.{Line, Outcome, returned, raised, crashed, orelse, Tty, timeout_of}
use renogy_x.Tty.Requests.{
  add_to_peers, on_registers, read_range, process_tty_id_info, after_request, on_time, check_modbus,
}
use renogy_x.Tty.Times.{timeout_of-Holds, Request, Holds, IsTimed, Passes}

-- A range is of the registers, 1, or of the input registers, 2.
IsNumber : ℕ → Type 0
IsNumber n = (n ≡ 1) ⊎ (n ≡ 2)

AreNumbered : List Range → Type 0
AreNumbered [] = Unit
AreNumbered (r ∷ rs) = IsNumber r.1 × AreNumbered rs

when_any-AreNumbered :
    (b : Bool) (r : Range) (rs : List Range)
    → IsNumber r.1
    → AreNumbered rs
    → AreNumbered (if b then r ∷ rs else rs)
unfolding AreNumbered
when_any-AreNumbered true r rs n h = (n, h)
when_any-AreNumbered false r rs n h = h

ranges_from-AreNumbered : (s : ℕ) (items : List IdInfo) → AreNumbered (ranges_from s items)
unfolding ranges_from AreNumbered IsNumber
ranges_from-AreNumbered s [] = tt
ranges_from-AreNumbered zero (x ∷ xs) =
    when_any-AreNumbered (ltb 0 x.read_count) (x, 1) _ (inl refl)
      (when_any-AreNumbered (ltb 0 x.read_input_count) (x, 2) _ (inr refl)
        (ranges_from-AreNumbered 0 xs))
ranges_from-AreNumbered (suc zero) (x ∷ xs) =
    when_any-AreNumbered (ltb 0 x.read_input_count) (x, 2) _ (inr refl)
      (ranges_from-AreNumbered 0 xs)
ranges_from-AreNumbered (suc (suc s)) (x ∷ xs) = ranges_from-AreNumbered 0 xs

found-IsNumber :
    (items : List IdInfo) (p q : Place) (x : IdInfo)
    → left items p ≡ (x, q.sub_index) ∷ left items q
    → IsNumber q.sub_index
unfolding AreNumbered
found-IsNumber items p q x e =
    (subst AreNumbered e (ranges_from-AreNumbered p.sub_index (drop p.index items))).0

module _ (L : Line) (clock : L.World → ℕ) (asked : L.World → List Request) where
  -- How many requests were made.
  abbrev pub made : L.World → ℕ
  made w = length (asked w)

  module _ (P : Parse) (laws : IsTimed L clock asked) where
    -- More than `k` requests were made, the place is one, and the devices are the same, if a call comes
    -- back.
    abbrev More : List IdInfo → ℕ → {A : Type 0} → Outcome (Tty L P) A → Type 0
    More items k =
        Holds (λ s. (k < made s.world) × (s.place.sub_index ≤ 2) × (s.id_list ≡ items)) (λ s. Unit)

    on_registers-More :
        (items : List IdInfo) (k : ℕ) (type id address count : ℕ) (err : ℤ) (regs : List ℕ)
        (info : Tty L P)
        → (k < made info.world) × (info.place.sub_index ≤ 2) × (info.id_list ≡ items)
        → More items k (on_registers L P type id address count err regs info)
    unfolding on_registers
    on_registers-More items k type id address count err regs info h =
        go (err ==ℤ pos count)
          (add_to_peers L P (message P type id address count regs) info.peer_list)
      where
        go :
            (b : Bool) (o : Option (List Peer))
            → More items k (elim b as (λ _. Outcome (Tty L P) (Unit {0})) [
              | false ↦ raised info
              | true ↦ elim o [
                | none ↦ crashed
                | some peers ↦ returned tt (record info { peer_list = peers })
              ]
            ])
        go false o = tt
        go true none = tt
        go true (some peers) = h

    read_range-More :
        (items : List IdInfo) (k : ℕ) (item : IdInfo) (info : Tty L P)
        → IsNumber info.place.sub_index
        → (k ≤ made info.world) × (info.place.sub_index ≤ 2) × (info.id_list ≡ items)
        → More items k (read_range L P item info)
    unfolding read_range IsNumber
    read_range-More items k item info number h =
        go (info.place.sub_index == 1) (info.place.sub_index == 2) refl refl number
      where
        asks :
            made (L.modbus_read_registers item.read_address item.read_count info.world).1
            ≡ suc (made info.world)
        asks = ap length (laws.of_read item.read_address item.read_count info.world).1

        asks_input :
            made
              (L.modbus_read_input_registers item.read_input_address item.read_input_count
                info.world).1
            ≡ suc (made info.world)
        asks_input =
            ap length
              (laws.of_read_input item.read_input_address item.read_input_count info.world).1

        go :
            (b c : Bool)
            → (info.place.sub_index == 1) ≡ b
            → (info.place.sub_index == 2) ≡ c
            → (info.place.sub_index ≡ 1) ⊎ (info.place.sub_index ≡ 2)
            → More items k (
                if b
                then (let (got, w) =
                      L.modbus_read_registers item.read_address item.read_count info.world in
                    on_registers L P 0 item.id item.read_address item.read_count got.0 got.1
                      (record info { world = w }))
                else if c
                then (let (got, w) =
                      L.modbus_read_input_registers item.read_input_address item.read_input_count
                        info.world in
                    on_registers L P 1 item.id item.read_input_address item.read_input_count got.0
                      got.1
                      (record info { world = w }))
                else returned tt info)
        go true c e e' n =
            let got = L.modbus_read_registers item.read_address item.read_count info.world in
            on_registers-More items k 0 item.id item.read_address item.read_count got.0.0 got.0.1
              (record info { world = got.1 }) (omega (arith, asks, h.0), h.1, h.2)
        go false true e e' n =
            let got =
              L.modbus_read_input_registers item.read_input_address item.read_input_count
                info.world in
            on_registers-More items k 1 item.id item.read_input_address item.read_input_count
              got.0.0 got.0.1 (record info { world = got.1 })
              (omega (arith, asks_input, h.0), h.1, h.2)
        go false false e e' (inl one) = absurd (ground (arith, e, one))
        go false false e e' (inr two) = absurd (ground (arith, e', two))

    process_tty_id_info-More :
        (items : List IdInfo) (k : ℕ) (item : IdInfo) (info : Tty L P)
        → IsNumber info.place.sub_index
        → (k ≤ made info.world) × (info.place.sub_index ≤ 2) × (info.id_list ≡ items)
        → More items k (process_tty_id_info L P item info)
    unfolding process_tty_id_info
    process_tty_id_info-More items k item info number h =
        go ((L.modbus_set_slave item.id info.world).0 ==ℤ pos 0)
      where
        next : Tty L P
        next = record info { world = (L.modbus_set_slave item.id info.world).1 }

        go : (b : Bool) → More items k (if b then read_range L P item next else raised next)
        go true =
            read_range-More items k item next number
              (omega (arith, h.0, ap length (laws.of_slave item.id info.world).1), h.1, h.2)
        go false = tt

    after_request-More :
        (items : List IdInfo) (k nmt : ℕ) (o : Outcome (Tty L P) (Unit {0}))
        → More items k o
        → More items k (after_request L P nmt o)
    unfolding after_request
    after_request-More items k nmt (returned _ info) h =
        timeout_of-Holds L P
          (λ s. (k < made s.world) × (s.place.sub_index ≤ 2) × (s.id_list ≡ items)) (λ s. Unit) nmt
          (L.milli_timestamp info.world).0 _
          (omega (arith, h.0, ap length (laws.of_time info.world).0.1), h.1, h.2)
    after_request-More items k nmt (raised info) h = tt
    after_request-More items k nmt crashed h = tt

    -- What a call does: it waits, since it is not time yet or it is too close to the last request, it
    -- makes a request, or it ends a pass.
    pub data Went (start : Tty L P) (timeout : ℕ) (mid : Tty L P) : Type 0 where
      waited :
          (w : L.World) (t : ℕ)
          → Passes L clock asked start.world w
          → start.next_modbus_time ≡ some t
          → clock w < t
          → timeout ≡ t - clock w
          → mid ≡ record start { world = w }
          → Went start timeout mid
      put_off :
          (w : L.World) (t : ℕ)
          → Passes L clock asked start.world w
          → t ≡ orelse start.last_modbus_time 0 + start.min_mstime
          → clock w < t
          → timeout ≡ t - clock w
          → mid ≡ record start { world = w; next_modbus_time = some t; first_modbus_time = some t }
          → Went start timeout mid
      requested :
          (made start.world < made mid.world)
            × (mid.place.sub_index ≤ 2)
            × (mid.id_list ≡ start.id_list)
          → Went start timeout mid
      passed :
          (w : L.World) (t : ℕ)
          → Passes L clock asked start.world w
          → left start.id_list start.place ≡ []
          → orelse start.last_modbus_time 0 + start.min_mstime ≤ clock w
          → timeout ≡ t - clock w
          → mid ≡ record start {
            world = w;
            place = beginning;
            next_modbus_time = some t;
            first_modbus_time = some t;
          }
          → Went start timeout mid

    -- If it comes back.
    abbrev pub Goes : Tty L P → Outcome (Tty L P) ℕ → Type 0
    Goes start (returned timeout mid) = Went start timeout mid
    Goes start (raised mid) = Unit
    Goes start crashed = Unit

    More-Goes :
        (start : Tty L P) (o : Outcome (Tty L P) ℕ)
        → More start.id_list (made start.world) o
        → Goes start o
    More-Goes start (returned timeout mid) h = requested h
    More-Goes start (raised mid) h = tt
    More-Goes start crashed h = tt

    timeout_of-Goes :
        (start mid : Tty L P) (nmt now : ℕ)
        → Went start (nmt - now) mid
        → Goes start (timeout_of L P nmt now mid)
    timeout_of-Goes start mid nmt now h =
        go (leb (nmt - now) 0x7FFFFFFF && leb (now - nmt) 0x80000000)
      where
        go : (b : Bool) → Goes start (if b then returned (nmt - now) mid else crashed)
        go true = h
        go false = tt

    on_time-Goes :
        (start : Tty L P) (w : L.World) (now nmt fmt : ℕ)
        → start.place.sub_index ≤ 2
        → Passes L clock asked start.world w
        → now ≡ clock w
        → orelse start.last_modbus_time 0 + start.min_mstime ≤ clock w
        → Goes start (on_time L P now nmt fmt (record start { world = w }))
    unfolding on_time
    on_time-Goes start w now nmt fmt small passes shown far =
        go (get_next_id_info-Found start.id_list start.place small)
      where
        branch : Option (Option IdInfo × Place) → Outcome (Tty L P) ℕ
        branch o = elim o as (λ _. Outcome (Tty L P) ℕ) [
          | none ↦ crashed
          | some (some item, place) ↦ after_request L P nmt (
              process_tty_id_info L P item (record start {
                world = w;
                place = place;
                next_modbus_time = some (now + start.item_mstime);
              }))
          | some (none, place) ↦ timeout_of L P (fmt + start.list_mstime) now (record start {
            world = w;
            place = place;
            next_modbus_time = some (fmt + start.list_mstime);
            first_modbus_time = some (fmt + start.list_mstime);
          })
        ]

        go :
            Found start.id_list start.place (get_next_id_info start.id_list start.place)
            → Goes start (branch (get_next_id_info start.id_list start.place))
        go (over nothing e) =
            subst (λ o. Goes start (branch o)) (sym e)
              (timeout_of-Goes start _ (fmt + start.list_mstime) now (
                passed w (fmt + start.list_mstime) passes nothing far
                  (ap (λ k. fmt + start.list_mstime - k) shown) refl))
        go (found x q first small' e) =
            subst (λ o. Goes start (branch o)) (sym e)
              (More-Goes start _ (
                after_request-More start.id_list (made start.world) nmt _ (
                  process_tty_id_info-More start.id_list (made start.world) x
                    (record start {
                      world = w;
                      place = q;
                      next_modbus_time = some (now + start.item_mstime);
                    })
                    (found-IsNumber start.id_list start.place q x first)
                    (omega (arith, ap length passes.1), small', refl))))

    pub check_modbus-Goes :
        (start : Tty L P) → start.place.sub_index ≤ 2 → Goes start (check_modbus L P start)
    unfolding check_modbus
    check_modbus-Goes start small = go (leb nmt now) (ltb now (lmt + start.min_mstime)) refl refl
      where
        now : ℕ
        now = (L.milli_timestamp start.world).0

        w : L.World
        w = (L.milli_timestamp start.world).1

        nmt : ℕ
        nmt = orelse start.next_modbus_time now

        fmt : ℕ
        fmt = orelse start.first_modbus_time now

        lmt : ℕ
        lmt = orelse start.last_modbus_time 0

        passes : Passes L clock asked start.world w
        passes = (laws.of_time start.world).0

        shown : now ≡ clock w
        shown = (laws.of_time start.world).1

        early :
            (o : Option ℕ)
            → start.next_modbus_time ≡ o
            → leb (orelse o now) now ≡ false
            → Went start (orelse o now - now) (record start { world = w })
        early none e h = absurd (ground (arith, h))
        early (some t) e h =
            waited w t passes e (ground (arith, h, shown)) (ap (λ k. t - k) shown) refl

        go :
            (due near : Bool)
            → leb nmt now ≡ due
            → ltb now (lmt + start.min_mstime) ≡ near
            → Goes start (
                if due && near
                then timeout_of L P (lmt + start.min_mstime) now (record start {
                  world = w;
                  next_modbus_time = some (lmt + start.min_mstime);
                  first_modbus_time = some (lmt + start.min_mstime);
                })
                else if due
                then on_time L P now nmt fmt (record start { world = w })
                else timeout_of L P nmt now (record start { world = w }))
        go true true e e' = timeout_of-Goes start _ (lmt + start.min_mstime) now (
            put_off w (lmt + start.min_mstime) passes refl (ground (arith, e', shown))
              (ap (λ k. lmt + start.min_mstime - k) shown) refl)
        go true false e e' =
            on_time-Goes start w now nmt fmt small passes shown (ground (arith, e', shown))
        go false near e e' = timeout_of-Goes start _ nmt now (early start.next_modbus_time refl e)
