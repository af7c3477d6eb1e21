-- ===== src/Influx/Monitor/Codes.antt =====
-- The codes that the loops of renogy_influx/renogy_influx.c come back with.
use renogy_x.Base.{ℕ, zero, suc}
use renogy_x.Base.{◌≡◌, refl, ◌≢◌, ◌⊎◌, inl, inr}
use renogy_x.Base.{Bool, true, false, some, List}
use renogy_x.Base.{ℤ}
use renogy_x.Influx.System.{System}
use renogy_x.Influx.Env.{
  ErrorCode, error_none, error_fatal, error_connect, error_modbus, error_shutdown, Monitor,
}
use renogy_x.Influx.Monitor.Turns.{modbus_turn, main_modbus_loop}
use renogy_x.Influx.Monitor.Loops.{
  on_lost, on_address, on_socket, connect_turn, main_connect_loop, on_context, on_modbus_error,
  bus_turn, bus_loop, main_modbus,
}
use renogy_x.Influx.Monitor.Outcomes.{
  Yields, Yields-after, Yields-some, Yields-none, Yields-eq, Yields-all, Yields-repeat, Yields-if,
  Yields-option,
}

module _ (S : System) where
  abbrev IsCode : (ErrorCode → Bool) → ErrorCode → Monitor S → Type 0
  IsCode ok rv s = ok rv ≡ true

  abbrev connect_code : ErrorCode → Bool
  connect_code error_connect = false
  connect_code _ = true

  -- The codes that are neither `ERROR_NONE` nor `ERROR_CONNECT`.
  abbrev loop_code : ErrorCode → Bool
  loop_code error_none = false
  loop_code error_connect = false
  loop_code _ = true

  abbrev bus_code : ErrorCode → Bool
  bus_code error_modbus = false
  bus_code error_connect = false
  bus_code _ = true

  module _ (ctx : S.Modbus) where
    modbus_loop-not_none :
        (sck : ℤ) (fuel : ℕ) (s : Monitor S)
        → Yields S (λ rv t. rv ≢ error_none) (main_modbus_loop S ctx sck fuel s)
    unfolding main_modbus_loop
    modbus_loop-not_none sck zero s = Yields-none S _
    modbus_loop-not_none sck (suc fuel) s =
        Yields-after S (λ rv t. Unit {0}) _ (modbus_turn S ctx sck s) _
          (Yields-all S _ (modbus_turn S ctx sck s) (λ rv t. tt))
          (λ rv t u.
            Yields-repeat S (λ c v. Unit {0}) _ _ rv t (λ c v w ne. ne) tt
              (λ p. modbus_loop-not_none sck fuel t))

    on_lost-connect_code : (rv : ErrorCode) (s : Monitor S) → connect_code (on_lost S rv s).0 ≡ true
    unfolding on_lost
    on_lost-connect_code error_connect s = refl
    on_lost-connect_code error_none s = refl
    on_lost-connect_code error_fatal s = refl
    on_lost-connect_code error_modbus s = refl
    on_lost-connect_code error_shutdown s = refl

    on_address-connect_code :
        (sck : ℤ) (fuel : ℕ) (ip : List ℕ) (s : Monitor S)
        → Yields S (IsCode connect_code) (on_address S ctx sck fuel ip s)
    unfolding on_address
    on_address-connect_code sck fuel ip s =
        Yields-if S _ _ _ _
          (Yields-after S (λ rv t. Unit {0}) _ _ _ (Yields-all S _ _ (λ rv t. tt))
            (λ rv t u. Yields-some S _ (on_lost-connect_code rv t)))
          (Yields-some S _ refl)

    connect_turn-connect_code :
        (fuel : ℕ) (s : Monitor S) → Yields S (IsCode connect_code) (connect_turn S ctx fuel s)
    unfolding connect_turn on_socket
    connect_turn-connect_code fuel s =
        Yields-after S (IsCode connect_code) _ _ _
          (Yields-if S _ _ _ _ (Yields-some S _ refl) (
            Yields-after S (IsCode connect_code) _ _ _
              (Yields-option S _ _ _ _ (Yields-some S _ refl)
                (λ ip. on_address-connect_code _ fuel ip _))
              (λ rv t c. Yields-some S _ c)))
          (λ rv t c. Yields-some S _ c)

    connect_loop-loop_code :
        (inner fuel : ℕ) (s : Monitor S)
        → Yields S (IsCode loop_code) (main_connect_loop S ctx inner fuel s)
    unfolding main_connect_loop
    connect_loop-loop_code inner zero s = Yields-none S _
    connect_loop-loop_code inner (suc fuel) s =
        Yields-after S (IsCode connect_code) _ _ _ (connect_turn-connect_code inner s) (λ rv t c.
          Yields-repeat S (IsCode connect_code) _ _ rv t (λ v w d ne. loop_of v d ne) c
            (λ p. connect_loop-loop_code inner fuel t))
      where
        loop_of : (v : ErrorCode) → connect_code v ≡ true → v ≢ error_none → loop_code v ≡ true
        loop_of error_none d ne = absurd (ne refl)
        loop_of error_connect d ne = d
        loop_of error_fatal d ne = refl
        loop_of error_modbus d ne = refl
        loop_of error_shutdown d ne = refl

    on_context-loop_code :
        (inner : ℕ) (s : Monitor S) → Yields S (IsCode loop_code) (on_context S ctx inner s)
    unfolding on_context
    on_context-loop_code inner s =
        Yields-after S (IsCode loop_code) _ _ _
          (Yields-if S _ _ _ _ (Yields-some S _ refl) (connect_loop-loop_code inner inner _))
          (λ rv t c. Yields-some S _ c)

  on_modbus_error-bus_code :
      (rv : ErrorCode) (s : Monitor S)
      → loop_code rv ≡ true
      → bus_code (on_modbus_error S rv s).0 ≡ true
  unfolding on_modbus_error
  on_modbus_error-bus_code error_connect s h = h
  on_modbus_error-bus_code error_none s h = refl
  on_modbus_error-bus_code error_fatal s h = refl
  on_modbus_error-bus_code error_modbus s h = refl
  on_modbus_error-bus_code error_shutdown s h = refl

  abbrev IsFinal : ErrorCode → Monitor S → Type 0
  IsFinal rv s = (rv ≡ error_fatal) ⊎ (rv ≡ error_shutdown)

  bus_loop-IsFinal : (inner fuel : ℕ) (s : Monitor S) → Yields S IsFinal (bus_loop S inner fuel s)
  unfolding bus_loop bus_turn
  bus_loop-IsFinal inner zero s = Yields-none S _
  bus_loop-IsFinal inner (suc fuel) s =
      Yields-after S (IsCode bus_code) _ _ _
        (Yields-after S (IsCode loop_code) _ _ _
          (Yields-option S _ _ _ _ (Yields-some S _ refl) (λ ctx. on_context-loop_code ctx inner _))
          (λ rv t c. Yields-some S _ (on_modbus_error-bus_code rv t c)))
        (λ rv t c.
          Yields-repeat S (IsCode bus_code) _ _ rv t (λ v w d ne. final_of v d ne) c
            (λ p. bus_loop-IsFinal inner fuel t))
    where
      final_of :
          (v : ErrorCode)
          → bus_code v ≡ true
          → v ≢ error_none
          → (v ≡ error_fatal) ⊎ (v ≡ error_shutdown)
      final_of error_none d ne = absurd (ne refl)
      final_of error_connect d ne = cc
      final_of error_fatal d ne = inl refl
      final_of error_modbus d ne = cc
      final_of error_shutdown d ne = inr refl

  pub main_modbus-Yields :
      (inner fuel : ℕ) (s : Monitor S)
      → Yields S (λ rv t. (rv ≡ error_fatal) ⊎ (rv ≡ error_shutdown)) (main_modbus S inner fuel s)
  unfolding main_modbus
  main_modbus-Yields inner fuel s =
      Yields-after S IsFinal _ _ _
        (Yields-if S _ _ _ _
          (Yields-after S IsFinal _ _ _ (bus_loop-IsFinal inner fuel _)
            (λ rv t c. Yields-some S _ c))
          (Yields-some S _ (inl refl)))
        (λ rv t c. Yields-some S _ c)

  -- If the monitor's loops come back, then with `ERROR_FATAL` or `ERROR_SHUTDOWN`.
  pub main_modbus_codes :
      (inner fuel : ℕ) (s t : Monitor S) (rv : ErrorCode)
      → main_modbus S inner fuel s ≡ some (rv, t)
      → (rv ≡ error_fatal) ⊎ (rv ≡ error_shutdown)
  main_modbus_codes inner fuel s t rv e =
      Yields-eq S IsFinal (main_modbus S inner fuel s) (main_modbus-Yields inner fuel s) e

  -- The connection loop itself comes back with none of the codes that it handles.
  pub main_connect_loop_codes :
      (ctx : S.Modbus) (inner fuel : ℕ) (s t : Monitor S) (rv : ErrorCode)
      → main_connect_loop S ctx inner fuel s ≡ some (rv, t)
      → (rv ≢ error_none) × (rv ≢ error_connect)
  main_connect_loop_codes ctx inner fuel s t rv e =
      let c = Yields-eq S (IsCode loop_code) _ (connect_loop-loop_code ctx inner fuel s) e in
      (λ e. cc, λ e. cc)
