-- ===== src/Influx/Monitor/Balance.antt =====
-- What the monitor takes of the system it gives back (renogy_influx/renogy_influx.c, `main_modbus`).
use renogy_x.Base.{ℕ, zero, suc, ◌+◌}
use renogy_x.Base.{◌≡◌, refl, ap, ◌∙◌, arith}
use renogy_x.Base.{Option, none, some}
use renogy_x.Influx.System.{System}
use renogy_x.Influx.Env.{
  ErrorCode, error_none, error_fatal, error_connect, error_modbus, error_shutdown, Monitor,
}
use renogy_x.Influx.Held.{Units, taken, IsHeld}
use renogy_x.Influx.Monitor.Turns.{Outcome}
use renogy_x.Influx.Monitor.Loops.{on_context, on_modbus_error, bus_turn, bus_loop, main_modbus}
use renogy_x.Influx.Monitor.Outcomes.{Yields-none, Yields-eq, Yields-if}
use renogy_x.Influx.Monitor.Kept.{
  Leaves, logged, slept, Leaves-some, Leaves-after, noted, Leaves-loop, Leaves-test,
  connect_loop-Leaves,
}

module _ (S : System) (held : S.World → ℕ) (u : Units) (laws : IsHeld S held u) where
  -- The context of the bus is freed.
  on_context-Leaves :
      (ctx : S.Modbus) (n inner : ℕ) (s : Monitor S)
      → held s.world ≡ n + u.context
      → Leaves S held u laws n (on_context S ctx inner s)
  unfolding on_context
  on_context-Leaves ctx n inner s h =
      let set =
        logged S held u laws _ _ _ _ _
          (laws.of_recovery ctx _ ∙ logged S held u laws _ _ _ _ s h) in
      let open_bus = laws.of_modbus_connect ctx _ ∙ laws.of_slave ctx _ _ ∙ set in
      Leaves-after S held u laws (n + u.context) n _ _
        (Yields-if S _ _ _ _
          (Leaves-some S held u laws _ _ (logged S held u laws _ _ _ _ _ open_bus))
          (connect_loop-Leaves S held u laws ctx (n + u.context) inner inner _
            (logged S held u laws _ _ _ _ _ open_bus)))
        (λ rv t k.
          Leaves-some S held u laws _ _ (laws.of_modbus_free ctx t.world ∙ omega (arith, k)))

  on_modbus_error_held :
      {n : ℕ} (rv : ErrorCode) (s : Monitor S)
      → held s.world ≡ n
      → held (on_modbus_error S rv s).1.world ≡ n
  unfolding on_modbus_error
  on_modbus_error_held error_modbus s h = slept S held u laws _ (logged S held u laws _ _ _ _ s h)
  on_modbus_error_held error_none s h = h
  on_modbus_error_held error_fatal s h = h
  on_modbus_error_held error_connect s h = h
  on_modbus_error_held error_shutdown s h = h

  -- Either there is no new context, or it is freed.
  new_context-Leaves :
      (new : Option S.Modbus) (n inner : ℕ) (s : Monitor S) (m : Outcome S)
      → held s.world ≡ taken u.context new + n
      → (held s.world ≡ n → Leaves S held u laws n m)
      → Leaves S held u laws n (elim new [ none ↦ m | some ctx ↦ on_context S ctx inner s ])
  new_context-Leaves none n inner s m h k = k (omega (arith, h))
  new_context-Leaves (some ctx) n inner s m h k = on_context-Leaves ctx n inner s (omega (arith, h))

  bus_turn-Leaves :
      (n inner : ℕ) (s : Monitor S) → held s.world ≡ n → Leaves S held u laws n (bus_turn S inner s)
  unfolding bus_turn
  bus_turn-Leaves n inner s h =
      let (new, w) = S.modbus_new_rtu s.world in
      Leaves-after S held u laws n n _ _
        (new_context-Leaves new n inner (record s { world = w }) _
          (laws.of_new s.world ∙ ap (λ k. taken u.context new + k) h)
          (λ k. Leaves-some S held u laws _ _ (logged S held u laws _ _ _ _ _ k)))
        (λ rv t k. Leaves-some S held u laws _ _ (on_modbus_error_held rv t k))

  bus_loop-Leaves :
      (n inner fuel : ℕ) (s : Monitor S)
      → held s.world ≡ n
      → Leaves S held u laws n (bus_loop S inner fuel s)
  unfolding bus_loop
  bus_loop-Leaves n inner zero s h = Yields-none S _
  bus_loop-Leaves n inner (suc fuel) s h =
      Leaves-loop S held u laws n _ _ (bus_turn-Leaves n inner s h) (bus_loop-Leaves n inner fuel)

  main_modbus-Leaves :
      (n inner fuel : ℕ) (s : Monitor S)
      → held s.world ≡ n
      → Leaves S held u laws n (main_modbus S inner fuel s)
  unfolding main_modbus
  main_modbus-Leaves n inner fuel s h =
      let taken = laws.heap.of_malloc 3200 s.world in
      Leaves-after S held u laws n n _ _
        (Leaves-test S held u laws n (S.malloc 3200 s.world).0 _ _
          (λ given.
            Leaves-after S held u laws (n + u.block) n _ _
              (bus_loop-Leaves (n + u.block) inner fuel _ (ground arith))
              (λ rv t k.
                Leaves-some S held u laws _ _ (laws.heap.of_free t.world ∙ omega (arith, k))))
          (λ out. Leaves-some S held u laws _ _ (logged S held u laws _ _ _ _ _ (ground arith))))
        (λ rv t k. Leaves-some S held u laws _ _ (noted S held u laws _ _ rv t k))

  main_modbus-held :
      (inner fuel : ℕ) (s t : Monitor S) (rv : ErrorCode)
      → main_modbus S inner fuel s ≡ some (rv, t)
      → held t.world ≡ held s.world
  main_modbus-held inner fuel s t rv e =
      Yields-eq S (λ c u. held u.world ≡ held s.world) (main_modbus S inner fuel s)
        (main_modbus-Leaves (held s.world) inner fuel s refl) e

-- `blocks`, `sockets` and `contexts` are the numbers of the blocks of memory, the sockets and the Modbus
-- contexts in use, each of them changed by its own calls only.
pub record AreCounts (S : System) (blocks sockets contexts : S.World → ℕ) : Type 0 where
  pub of_blocks : IsHeld S blocks (record { block = 1; socket = 0; context = 0 })
  pub of_sockets : IsHeld S sockets (record { block = 0; socket = 1; context = 0 })
  pub of_contexts : IsHeld S contexts (record { block = 0; socket = 0; context = 1 })

-- Whenever the monitor comes back, with whatever code, it holds as many blocks, as many sockets and as
-- many contexts as before.
pub main_modbus_balance :
    (S : System) (blocks sockets contexts : S.World → ℕ)
    (counts : AreCounts S blocks sockets contexts) (inner fuel : ℕ) (s t : Monitor S)
    (rv : ErrorCode)
    → main_modbus S inner fuel s ≡ some (rv, t)
    → (blocks t.world ≡ blocks s.world)
      × (sockets t.world ≡ sockets s.world)
      × (contexts t.world ≡ contexts s.world)
main_modbus_balance S blocks sockets contexts counts inner fuel s t rv e = (
  main_modbus-held S blocks _ counts.of_blocks inner fuel s t rv e,
  main_modbus-held S sockets _ counts.of_sockets inner fuel s t rv e,
  main_modbus-held S contexts _ counts.of_contexts inner fuel s t rv e,
)
