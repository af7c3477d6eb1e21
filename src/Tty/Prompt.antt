-- ===== src/Tty/Prompt.antt =====
-- The loop of tty_reader/tty_reader.zig makes its requests in time (`check_modbus`).
use mathlib.Core.Option.{some-injective}
use renogy_x.Base.{ℕ, zero, suc, ◌+◌, ◌-◌, ◌<◌, ◌≤◌}
use renogy_x.Base.{◌≡◌, refl, ap, subst, sym, ◌∙◌, arith, ◌⊎◌, inl, inr}
use renogy_x.Base.{some, List, [], ◌∷◌, length}
use renogy_x.Tty.Parse.{Parse}
use renogy_x.Tty.Peers.{Peer}
use renogy_x.Tty.Devices.{beginning}
use renogy_x.Tty.Ranges.{Range, ranges_from, left}
use renogy_x.Tty.Requests.{Line, returned, orelse, Tty, check_modbus}
use renogy_x.Tty.Times.{Request, IsTimed, Passes}
use renogy_x.Tty.Turns.{made, Went, waited, put_off, requested, passed, Goes, check_modbus-Goes}

module _ (L : Line) (clock : L.World → ℕ) (asked : L.World → List Request) (P : Parse) where
  -- A call of `check_modbus` that comes back, and a poll that waits for its timeout; meanwhile the peers
  -- may change.
  pub data Turn (info next : Tty L P) : Type 0 where
    turn :
        (timeout : ℕ) (mid : Tty L P) (peers : List Peer) (w : L.World)
        → check_modbus L P info ≡ returned timeout mid
        → Passes L clock asked mid.world w
        → clock mid.world + timeout ≤ clock w
        → next ≡ record mid { peer_list = peers; world = w }
        → Turn info next

  pub data Turns : ℕ → Tty L P → Tty L P → Type 0 where
    done : (info : Tty L P) → Turns 0 info info
    then :
        (k : ℕ) (info next last : Tty L P)
        → Turn info next
        → Turns k next last
        → Turns (suc k) info last

  -- The next request is due.
  Due : Tty L P → Type 0
  Due info = (t : ℕ) → info.next_modbus_time ≡ some t → t ≤ clock info.world

  -- The last request is long enough ago.
  Far : Tty L P → Type 0
  Far info = orelse info.last_modbus_time 0 + info.min_mstime ≤ clock info.world

  -- How near a request is; the fourth stage is never reached.
  Stage : ℕ → Tty L P → Type 0
  Stage zero info = Unit
  Stage (suc zero) info = Due info
  Stage (suc (suc zero)) info = Due info × Far info
  Stage (suc (suc (suc zero))) info = Due info × Far info × (info.place ≡ beginning)
  Stage (suc (suc (suc (suc k)))) info = ⊥

  -- A turn makes a request, or comes nearer to one.
  Nearer : ℕ → Tty L P → Tty L P → Type 0
  Nearer k info next =
      (made L clock asked info.world < made L clock asked next.world)
      ⊎ (Stage k next × (made L clock asked info.world ≤ made L clock asked next.world))

  module _ (laws : IsTimed L clock asked) where
    due_again :
        (next : Tty L P) (w : L.World) (t : ℕ)
        → next.next_modbus_time ≡ some t
        → clock w + (t - clock w) ≤ clock next.world
        → Due next
    unfolding Due
    due_again next w t e h t' e' =
        subst (λ k. k ≤ clock next.world) (some-injective t t' (sym e ∙ e')) (omega (arith, h))

    waited-Nearer :
        (k : ℕ) (info next : Tty L P) (w : L.World) (t : ℕ)
        → Stage k info
        → clock info.world ≤ clock w
        → info.next_modbus_time ≡ some t
        → clock w < t
        → Due next
        → Stage (suc k) next
    unfolding Stage Due
    waited-Nearer zero info next w t s later e early due = due
    waited-Nearer (suc zero) info next w t s later e early due =
        absurd (omega (arith, s t e, later, early))
    waited-Nearer (suc (suc zero)) info next w t s later e early due =
        absurd (omega (arith, s.0 t e, later, early))
    waited-Nearer (suc (suc (suc zero))) info next w t s later e early due =
        absurd (omega (arith, s.0 t e, later, early))
    waited-Nearer (suc (suc (suc (suc k)))) info next w t s later e early due = s

    put_off-Nearer :
        (k : ℕ) (info next : Tty L P) (w : L.World)
        → Stage k info
        → clock info.world ≤ clock w
        → clock w < orelse info.last_modbus_time 0 + info.min_mstime
        → Due next
        → Far next
        → Stage (suc k) next
    unfolding Stage Far
    put_off-Nearer zero info next w s later early due far = due
    put_off-Nearer (suc zero) info next w s later early due far = (due, far)
    put_off-Nearer (suc (suc zero)) info next w s later early due far =
        absurd (omega (arith, s.1, later, early))
    put_off-Nearer (suc (suc (suc zero))) info next w s later early due far =
        absurd (omega (arith, s.1, later, early))
    put_off-Nearer (suc (suc (suc (suc k)))) info next w s later early due far = s

    passed-Nearer :
        (k : ℕ) (info next : Tty L P) (r : Range) (rs : List Range)
        → Stage k info
        → ranges_from 0 info.id_list ≡ r ∷ rs
        → left info.id_list info.place ≡ []
        → Due next
        → Far next
        → next.place ≡ beginning
        → Stage (suc k) next
    unfolding Stage
    passed-Nearer zero info next r rs s some_range nothing due far begin = due
    passed-Nearer (suc zero) info next r rs s some_range nothing due far begin = (due, far)
    passed-Nearer (suc (suc zero)) info next r rs s some_range nothing due far begin =
        (due, far, begin)
    passed-Nearer (suc (suc (suc zero))) info next r rs (d, f, at) some_range nothing due far
          begin =
        let none_left : ranges_from 0 info.id_list ≡ [] =
          ap (left info.id_list) (sym at) ∙ nothing in
        absurd (ground (arith, none_left, some_range))
    passed-Nearer (suc (suc (suc (suc k)))) info next r rs s some_range nothing due far begin = s

    step :
        (k : ℕ) (info next : Tty L P) (r : Range) (rs : List Range)
        → Stage k info
        → info.place.sub_index ≤ 2
        → ranges_from 0 info.id_list ≡ r ∷ rs
        → Turn info next
        → Nearer (suc k) info next × (next.place.sub_index ≤ 2) × (next.id_list ≡ info.id_list)
    unfolding Nearer Far
    step k info next r rs s small some_range (turn timeout mid peers w' e passes' poll same) = go (
        subst (Goes L clock asked P laws info) e
          (check_modbus-Goes L clock asked P laws info small))
      where
        -- The poll ends when its time has come.
        in_time :
            (w : L.World) (t : ℕ)
            → mid.world ≡ w
            → timeout ≡ t - clock w
            → clock w + (t - clock w) ≤ clock next.world
        in_time w t at et = omega (arith, poll, ap clock at, et, ap (λ i. clock i.world) same)

        as_many :
            (w : L.World)
            → mid.world ≡ w
            → asked w ≡ asked info.world
            → made L clock asked info.world ≤ made L clock asked next.world
        as_many w at none_new = omega (
          arith,
          ap (λ i. made L clock asked i.world) same,
          ap length passes'.1,
          ap (made L clock asked) at,
          ap length none_new,
        )

        go :
            Went L clock asked P laws info timeout mid
            → Nearer (suc k) info next × (next.place.sub_index ≤ 2) × (next.id_list ≡ info.id_list)
        go (waited w t passes et early wait em) =
            let at = ap (λ i. i.world) em in
            let due =
              due_again next w t
                (ap (λ i. i.next_modbus_time) same ∙ ap (λ i. i.next_modbus_time) em ∙ et)
                (in_time w t at wait) in
            (
              inr (waited-Nearer k info next w t s passes.0 et early due, as_many w at passes.1),
              omega
                  (arith, small, ap (λ i. i.place.sub_index) same, ap (λ i. i.place.sub_index) em),
              ap (λ i. i.id_list) same ∙ ap (λ i. i.id_list) em,
            )
        go (put_off w t passes et early wait em) =
            let at = ap (λ i. i.world) em in
            let close = in_time w t at wait in
            let due =
              due_again next w t
                (ap (λ i. i.next_modbus_time) same ∙ ap (λ i. i.next_modbus_time) em) close in
            let far : orelse next.last_modbus_time 0 + next.min_mstime ≤ clock next.world = omega (
              arith,
              ap (λ i. orelse i.last_modbus_time 0) same,
              ap (λ i. orelse i.last_modbus_time 0) em,
              ap (λ i. i.min_mstime) same,
              ap (λ i. i.min_mstime) em,
              et,
              close,
            ) in
            (
              inr (
                put_off-Nearer k info next w s passes.0 (omega (arith, et, early)) due far,
                as_many w at passes.1,
              ),
              omega
                  (arith, small, ap (λ i. i.place.sub_index) same, ap (λ i. i.place.sub_index) em),
              ap (λ i. i.id_list) same ∙ ap (λ i. i.id_list) em,
            )
        go (requested (more, small', devices)) = (
          inl (omega (arith, more, ap (λ i. made L clock asked i.world) same, ap length passes'.1)),
          omega (arith, small', ap (λ i. i.place.sub_index) same),
          ap (λ i. i.id_list) same ∙ devices,
        )
        go (passed w t passes nothing far_now wait em) =
            let at = ap (λ i. i.world) em in
            let close = in_time w t at wait in
            let due =
              due_again next w t
                (ap (λ i. i.next_modbus_time) same ∙ ap (λ i. i.next_modbus_time) em) close in
            let far : orelse next.last_modbus_time 0 + next.min_mstime ≤ clock next.world = omega (
              arith,
              ap (λ i. orelse i.last_modbus_time 0) same,
              ap (λ i. orelse i.last_modbus_time 0) em,
              ap (λ i. i.min_mstime) same,
              ap (λ i. i.min_mstime) em,
              far_now,
              close,
            ) in
            (
              inr (
                passed-Nearer k info next r rs s some_range nothing due far
                    (ap (λ i. i.place) same ∙ ap (λ i. i.place) em),
                as_many w at passes.1,
              ),
              omega (arith, ap (λ i. i.place.sub_index) same, ap (λ i. i.place.sub_index) em),
              ap (λ i. i.id_list) same ∙ ap (λ i. i.id_list) em,
            )

    -- Requests are not taken back.
    made-Turns :
        (k : ℕ) (info last : Tty L P) (r : Range) (rs : List Range)
        → info.place.sub_index ≤ 2
        → ranges_from 0 info.id_list ≡ r ∷ rs
        → Turns k info last
        → made L clock asked info.world ≤ made L clock asked last.world
    unfolding Nearer Stage
    made-Turns _ info _ r rs small some_range (done _) = omega arith
    made-Turns _ info last r rs small some_range (then k _ next _ first later) =
        let (near, small', devices) = step 0 info next r rs tt small some_range first in
        let rest =
          made-Turns k next last r rs small' (ap (ranges_from 0) devices ∙ some_range) later in
        joined near rest
      where
        joined :
            ((made L clock asked info.world < made L clock asked next.world)
              ⊎ (Stage 1 next × (made L clock asked info.world ≤ made L clock asked next.world)))
            → made L clock asked next.world ≤ made L clock asked last.world
            → made L clock asked info.world ≤ made L clock asked last.world
        joined (inl more) rest = omega (arith, more, rest)
        joined (inr (_, same)) rest = omega (arith, same, rest)

    -- A request is made before the fourth stage.
    made-Stage :
        (k j : ℕ) (info last : Tty L P) (r : Range) (rs : List Range)
        → j + k ≡ 4
        → Stage j info
        → info.place.sub_index ≤ 2
        → ranges_from 0 info.id_list ≡ r ∷ rs
        → Turns k info last
        → made L clock asked info.world < made L clock asked last.world
    unfolding Nearer Stage
    made-Stage _ j info _ r rs four stage small some_range (done _) =
        let last_stage : j ≡ 4 = omega (arith, four) in
        absurd (subst (λ i. Stage i info) last_stage stage)
    made-Stage _ j info last r rs four stage small some_range (then k _ next _ first later) =
        let (near, small', devices) = step j info next r rs stage small some_range first in
        let some_range' = ap (ranges_from 0) devices ∙ some_range in
        joined near (made-Turns k next last r rs small' some_range' later) (λ s.
          made-Stage k (suc j) next last r rs (omega (arith, four)) s small' some_range' later)
      where
        joined :
            ((made L clock asked info.world < made L clock asked next.world)
              ⊎ (Stage (suc j) next
                  × (made L clock asked info.world ≤ made L clock asked next.world)))
            → made L clock asked next.world ≤ made L clock asked last.world
            → (Stage (suc j) next → made L clock asked next.world < made L clock asked last.world)
            → made L clock asked info.world < made L clock asked last.world
        joined (inl more) rest go_on = omega (arith, more, rest)
        joined (inr (s, same)) rest go_on = omega (arith, same, go_on s)

    -- Where a peer is there, some device has registers to read, each call of `check_modbus` comes back
    -- without an error and without an overflow, and each poll waits for the timeout, a request is made
    -- within four turns, whatever the times were before.
    pub check_modbus_requests :
        (info last : Tty L P) (r : Range) (rs : List Range)
        → info.place.sub_index ≤ 2
        → ranges_from 0 info.id_list ≡ r ∷ rs
        → Turns 4 info last
        → made L clock asked info.world < made L clock asked last.world
    unfolding Stage
    check_modbus_requests info last r rs small some_range turns =
        made-Stage 4 0 info last r rs refl tt small some_range turns
