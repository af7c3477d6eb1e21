-- ===== src/Influx/Monitor/Kept.antt =====
-- What the loops inside a connection to the bus take of the system they give back
-- (renogy_influx/renogy_influx.c, `main_modbus_loop` and `main_connect_loop`).
use renogy_x.Base.{ℕ, zero, suc, ◌+◌}
use renogy_x.Base.{◌≡◌, refl, ◌∙◌, if◌then◌else◌, arith}
use renogy_x.Base.{Bool, true, false, some, List}
use renogy_x.Base.{ℤ, negsuc, ◌==ℤ◌}
use renogy_x.Influx.System.{System}
use renogy_x.Influx.Log.{get_mstime}
use renogy_x.Influx.Env.{
  ErrorCode, error_none, error_fatal, error_connect, error_modbus, error_shutdown, Monitor, logln0,
}
use renogy_x.Influx.Held.{Units, IsHeld, held-logln0}
use renogy_x.Influx.Transfer.Resources.{get_mstime-Holds, main_send_recv_loop-Holds}
use renogy_x.Influx.Monitor.Turns.{
  Outcome, after, repeat, note_shutdown, sleep_minute, post_value, modbus_turn, main_modbus_loop,
  end_of,
}
use renogy_x.Influx.Monitor.Loops.{on_lost, on_address, on_socket, connect_turn, main_connect_loop}
use renogy_x.Influx.Monitor.Outcomes.{
  Yields, Yields-after, Yields-some, Yields-none, Yields-repeat, Yields-if, Yields-option,
}

module _ (S : System) (held : S.World → ℕ) (u : Units) (laws : IsHeld S held u) where
  -- Every outcome holds as much.
  abbrev pub Leaves : ℕ → Outcome S → Type 0
  Leaves n m = Yields S (λ rv t. held t.world ≡ n) m

  pub logged :
      {n : ℕ} (log_level line : ℕ) (function text : List ℕ) (s : Monitor S)
      → held s.world ≡ n
      → held (logln0 S log_level line function text s).world ≡ n
  logged log_level line function text s h =
      held-logln0 S held u laws log_level line function text s ∙ h

  pub slept : {n : ℕ} (s : Monitor S) → held s.world ≡ n → held (sleep_minute S s).world ≡ n
  unfolding sleep_minute
  slept s h = laws.of_usleep _ s.world ∙ h

  pub Leaves-some :
      {n : ℕ} (rv : ErrorCode) (s : Monitor S) → held s.world ≡ n → Leaves n (some (rv, s))
  Leaves-some rv s h = Yields-some S _ h

  pub Leaves-after :
      (k n : ℕ) (m : Outcome S) (f : ErrorCode → Monitor S → Outcome S)
      → Leaves k m
      → ((rv : ErrorCode) (t : Monitor S) → held t.world ≡ k → Leaves n (f rv t))
      → Leaves n (after S m f)
  Leaves-after k n m f h g = Yields-after S _ _ m f h g

  pub noted :
      {n : ℕ} (line : ℕ) (function : List ℕ) (rv : ErrorCode) (s : Monitor S)
      → held s.world ≡ n
      → held (note_shutdown S line function rv s).world ≡ n
  unfolding note_shutdown
  noted line function error_shutdown s h = logged _ _ _ _ s h
  noted line function error_none s h = h
  noted line function error_fatal s h = h
  noted line function error_connect s h = h
  noted line function error_modbus s h = h

  -- The loops repeat turns that hold as much.
  pub Leaves-loop :
      (n : ℕ) (m : Outcome S) (again : Monitor S → Outcome S)
      → Leaves n m
      → ((t : Monitor S) → held t.world ≡ n → Leaves n (again t))
      → Leaves n (after S m (repeat S again))
  Leaves-loop n m again h g =
      Leaves-after n n m (repeat S again) h
        (λ rv t k. Yields-repeat S (λ c v. held v.world ≡ n) _ again rv t (λ c v w ne. w) k (g t))

  post_value-Leaves :
      (sck now : ℤ) (value n : ℕ) (s : Monitor S)
      → held s.world ≡ n
      → Leaves n (post_value S sck now value s)
  unfolding post_value
  post_value-Leaves sck now value n s h =
      main_send_recv_loop-Holds S held u laws sck (end_of now) n _ h

  modbus_turn-Leaves :
      (ctx : S.Modbus) (sck : ℤ) (n : ℕ) (s : Monitor S)
      → held s.world ≡ n
      → Leaves n (modbus_turn S ctx sck s)
  unfolding modbus_turn
  modbus_turn-Leaves ctx sck n s h =
      let timed = get_mstime-Holds S held u laws n s.world h in
      let got = laws.of_read ctx _ _ (get_mstime S s.world).1 ∙ timed in
      Yields-option S _ _ _ (get_mstime S s.world).0 (Leaves-some _ _ (logged _ _ _ _ _ timed))
        (λ now. Yields-if S _ _ _ _ (Leaves-some _ _ (logged _ _ _ _ _ got)) (
          Leaves-after n n _ _ (post_value-Leaves sck now _ n _ got)
            (λ rv t k. Leaves-some _ _ (noted _ _ rv t k))))

  modbus_loop-Leaves :
      (ctx : S.Modbus) (sck : ℤ) (n fuel : ℕ) (s : Monitor S)
      → held s.world ≡ n
      → Leaves n (main_modbus_loop S ctx sck fuel s)
  unfolding main_modbus_loop
  modbus_loop-Leaves ctx sck n zero s h = Yields-none S _
  modbus_loop-Leaves ctx sck n (suc fuel) s h =
      Leaves-loop n _ _ (modbus_turn-Leaves ctx sck n s h) (modbus_loop-Leaves ctx sck n fuel)

  on_lost_held :
      {n : ℕ} (rv : ErrorCode) (s : Monitor S)
      → held s.world ≡ n
      → held (on_lost S rv s).1.world ≡ n
  unfolding on_lost
  on_lost_held error_connect s h = slept _ (logged _ _ _ _ s h)
  on_lost_held error_none s h = h
  on_lost_held error_fatal s h = h
  on_lost_held error_modbus s h = h
  on_lost_held error_shutdown s h = h

  on_address-Leaves :
      (ctx : S.Modbus) (sck : ℤ) (n fuel : ℕ) (ip : List ℕ) (s : Monitor S)
      → held s.world ≡ n
      → Leaves n (on_address S ctx sck fuel ip s)
  unfolding on_address
  on_address-Leaves ctx sck n fuel ip s h =
      let tried = laws.of_connect sck _ _ _ ∙ logged _ _ _ _ _ h in
      Yields-if S _ _ _ _
        (Leaves-after n n _ _ (modbus_loop-Leaves ctx sck n fuel _ (logged _ _ _ _ _ tried))
          (λ rv t k. Leaves-some _ _ (on_lost_held rv t k)))
        (Leaves-some _ _ (slept _ (logged _ _ _ _ _ tried)))

  -- The socket is closed.
  on_socket-Leaves :
      (ctx : S.Modbus) (sck : ℤ) (n fuel : ℕ) (s : Monitor S)
      → held s.world ≡ n + u.socket
      → Leaves n (on_socket S ctx sck fuel s)
  unfolding on_socket
  on_socket-Leaves ctx sck n fuel s h =
      let found = laws.of_resolver _ _ ∙ logged _ _ _ _ s h in
      Leaves-after (n + u.socket) n _ _
        (Yields-option S _ _ _ _ (Leaves-some _ _ (slept _ (logged _ _ _ _ _ found)))
          (λ ip. on_address-Leaves ctx sck (n + u.socket) fuel ip _ found))
        (λ rv t k. Leaves-some _ _ (laws.of_close sck t.world ∙ omega (arith, k)))

  -- A branch may use what its test says.
  pub Leaves-test :
      (n : ℕ) (b : Bool) (x y : Outcome S)
      → (b ≡ true → Leaves n x)
      → (b ≡ false → Leaves n y)
      → Leaves n (if b then x else y)
  Leaves-test n true x y h k = h refl
  Leaves-test n false x y h k = k refl

  connect_turn-Leaves :
      (ctx : S.Modbus) (n fuel : ℕ) (s : Monitor S)
      → held s.world ≡ n
      → Leaves n (connect_turn S ctx fuel s)
  unfolding connect_turn
  connect_turn-Leaves ctx n fuel s h =
      let got = laws.of_socket s.world in
      Leaves-after n n _ _
        (Leaves-test n ((S.socket s.world).0 ==ℤ negsuc 0) _ _
          (λ lost. Leaves-some _ _ (logged _ _ _ _ _ (ground arith)))
          (λ made. on_socket-Leaves ctx (S.socket s.world).0 n fuel _ (ground arith)))
        (λ rv t k. Leaves-some _ _ (noted _ _ rv t k))

  pub connect_loop-Leaves :
      (ctx : S.Modbus) (n inner fuel : ℕ) (s : Monitor S)
      → held s.world ≡ n
      → Leaves n (main_connect_loop S ctx inner fuel s)
  unfolding main_connect_loop
  connect_loop-Leaves ctx n inner zero s h = Yields-none S _
  connect_loop-Leaves ctx n inner (suc fuel) s h =
      Leaves-loop n _ _ (connect_turn-Leaves ctx n inner s h) (connect_loop-Leaves ctx n inner fuel)
