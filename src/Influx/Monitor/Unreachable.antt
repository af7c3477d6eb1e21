-- ===== src/Influx/Monitor/Unreachable.antt =====
-- The connection loop of renogy_influx/renogy_influx.c while the server cannot be reached.
use renogy_x.Base.{ℕ, zero, suc}
use renogy_x.Base.{◌≡◌, refl}
use renogy_x.Base.{false, Option, none, some, List}
use renogy_x.Base.{ℤ, pos, negsuc, ◌==ℤ◌}
use renogy_x.Influx.System.{System}
use renogy_x.Influx.Env.{ErrorCode, error_none, Monitor}
use renogy_x.Influx.Monitor.Turns.{Outcome, after, repeat, note_shutdown}
use renogy_x.Influx.Monitor.Loops.{on_address, on_socket, connect_turn, main_connect_loop}

module _ (S : System) where
  -- The server refuses every connection, while sockets can be made.
  pub record IsUnreachable : Type 0 where
    pub sockets : (w : S.World) → ((S.socket w).0 ==ℤ negsuc 0) ≡ false
    pub refused :
        (sck : ℤ) (ip : List ℕ) (port : ℕ) (w : S.World)
        → ((S.connect sck ip port w).0 ==ℤ pos 0) ≡ false

  -- A turn of the connection loop goes on.
  abbrev Retries : Outcome S → Type 0
  Retries m = (t : Monitor S) × (m ≡ some (error_none, t))

  Retries-after :
      (m : Outcome S) (k : ErrorCode → Monitor S → Outcome S)
      → Retries m
      → ((t : Monitor S) → Retries (k error_none t))
      → Retries (after S m k)
  unfolding after
  Retries-after m k (t, e) f = rw e (f t)

  module _ (down : IsUnreachable) (ctx : S.Modbus) (inner : ℕ) where
    on_address-Retries :
        (sck : ℤ) (ip : List ℕ) (s : Monitor S) → Retries (on_address S ctx sck inner ip s)
    unfolding on_address
    on_address-Retries sck ip s = rw (down.refused _ _ _ _) (_, refl)

    resolved-Retries :
        (he : Option (List ℕ)) (sck : ℤ) (s t : Monitor S)
        → Retries
            (elim he [ none ↦ some (error_none, t) | some ip ↦ on_address S ctx sck inner ip s ])
    resolved-Retries none sck s t = (t, refl)
    resolved-Retries (some ip) sck s t = on_address-Retries sck ip s

    connect_turn-Retries : (s : Monitor S) → Retries (connect_turn S ctx inner s)
    unfolding connect_turn on_socket
    connect_turn-Retries s = rw (down.sockets s.world) (
        Retries-after _ _
          (Retries-after _ _ (resolved-Retries _ _ _ _)
            (λ t. (record t { world = S.close _ t.world }, refl)))
          (λ t. (t, unfold note_shutdown in refl)))

    -- However many turns it is given, the connection loop does not come back while the server cannot
    -- be reached, whether or not a signal has come.
    pub main_connect_loop_unreachable :
        (fuel : ℕ) (s : Monitor S) → main_connect_loop S ctx inner fuel s ≡ none
    unfolding main_connect_loop after repeat
    main_connect_loop_unreachable zero s = refl
    main_connect_loop_unreachable (suc fuel) s =
        let (t, e) = connect_turn-Retries s in rw e (main_connect_loop_unreachable fuel t)
