-- ===== src/Tty/Relay/Connections.antt =====
-- The connections to the server, round by round (`main_loop` of tty_reader/tty_reader_influx.zig).
use renogy_x.Base.{ℕ}
use renogy_x.Base.{◌≡◌}
use renogy_x.Base.{Option, none, some, List, [], ◌∷◌}
use renogy_x.Tty.After.{After, After-some, After-bind}
use renogy_x.Tty.Parse.{Parse}
use renogy_x.Tty.Subscriber.{Info}
use renogy_x.Tty.Kept.{process_csck_in-After}
use renogy_x.Tty.Relay.Settings.{Net}
use renogy_x.Tty.Relay.Points.{Relay, process_msg}
use renogy_x.Tty.Relay.Server.{Found, try_connect, reload_config, csck_can_recv, round, main_loop}
use renogy_x.Tty.Relay.Streams.{IsCarried, IsWhole, IsClean, Clean-Whole}
use renogy_x.Tty.Relay.Queued.{process_msg-IsWhole}
use renogy_x.Tty.Relay.Sockets.{
  try_connect-IsWhole, on_polled-IsWhole, clear_out_queue-IsClean, reload_config-IsClean,
}

module _ (N : Net) (stream : N.World → List ℕ) (laws : IsCarried N stream) where
  module _ (P : Parse) where
    csck_can_recv-IsWhole :
        (received : Option (List ℕ)) (info : Info (Relay N))
        → IsClean N stream info.app
        → After (λ next. IsWhole N stream next.app) (csck_can_recv N P received info)
    unfolding csck_can_recv
    csck_can_recv-IsWhole none info h =
        After-some (λ next. IsWhole N stream next.app) info
          (Clean-Whole N stream info.app.isck info.app.queue info.app.world h)
    csck_can_recv-IsWhole (some got) info h =
        process_csck_in-After P (process_msg N P) (IsWhole N stream) (IsWhole N stream) (λ app h. h)
          (process_msg-IsWhole N stream P) got (record info { app = try_connect N info.app })
          (try_connect-IsWhole N stream laws info.app h)

    round-IsClean :
        (found : Found) (info : Info (Relay N))
        → IsClean N stream info.app
        → After (λ next. IsClean N stream next.app) (round N P found info)
    unfolding round
    round-IsClean found info h =
        After-bind (λ next. IsWhole N stream next.app) (λ next. IsClean N stream next.app) _ _
          (csck_can_recv-IsWhole found.received
            (record info { app = reload_config N found.reload info.app })
            (reload_config-IsClean N stream laws found.reload info.app h))
          (λ next whole.
            After-some (λ last. IsClean N stream last.app) _
              (clear_out_queue-IsClean N stream laws _
                (on_polled-IsWhole N stream laws info.app.isck P found next.app whole)))

    -- Whatever the publisher sends and the server does, what has gone out on the connection to the
    -- server, with what still waits, is whole requests, one behind the other; and where there is no
    -- connection nothing waits.
    pub main_loop-IsClean :
        (events : List Found) (info last : Info (Relay N))
        → IsClean N stream info.app
        → main_loop N P events info ≡ some last
        → IsClean N stream last.app
    unfolding main_loop
    main_loop-IsClean [] info last h = After-some (λ next. IsClean N stream next.app) info h last
    main_loop-IsClean (found ∷ events) info last h =
        After-bind (λ next. IsClean N stream next.app) (λ next. IsClean N stream next.app)
          (round N P found info) _ (round-IsClean found info h)
          (λ next clean r. main_loop-IsClean events next r clean) last
