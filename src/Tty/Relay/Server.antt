-- ===== src/Tty/Relay/Server.antt =====
-- The server of tty_reader/tty_reader_influx.zig: `connect_isck` and the functions that read from it and
-- send to it, and the rounds of `main_loop`.
use Prim.Native.Nat.{min}
use renogy_x.Base.{ℕ, ltb, if◌then◌else◌}
use renogy_x.Base.{Bool, true, false, Option, none, some, List, [], ◌∷◌, ℤ, length}
use renogy_x.Tty.Parse.{Parse}
use renogy_x.Tty.Peers.{Send, out_slice, left_after}
use renogy_x.Tty.Subscriber.{Info, process_csck_in}
use renogy_x.Tty.Relay.Settings.{Settings, no_socket, refused, made, Net}
use renogy_x.Tty.Relay.Points.{Relay, process_msg}

-- What a round finds: a signal to reload, and then the new settings where they can be read; what is
-- received from the publisher; whether a read from the server goes well or would block, and whether
-- the server can be written to.
pub record Found : Type 0 where
  pub reload : Option (Option Settings)
  pub received : Option (List ℕ)
  pub answered : Option Bool
  pub writable : Bool

module _ (N : Net) where
  -- The branches on an error: the socket is closed if there is one.
  unfoldable pub shut : Relay N → Relay N
  shut info = elim info.isck [
    | none ↦ info
    | some sck ↦ record info { isck = none; world = N.close sck info.world }
  ]

  -- An error is false.
  unfoldable pub connect_isck : Relay N → Bool × Relay N
  connect_isck info = elim info.isck [
    | some sck ↦ (true, info)
    | none ↦
        let (attempt, w) = N.attempt info.settings info.world in
        elim attempt [
          | no_socket ↦ (false, record info { world = w })
          | refused sck ↦ (false, record info { isck = some sck; world = w })
          | made sck ↦ (true, record info { isck = some sck; connecting = true; world = w })
        ]
  ]

  -- The start of `csck_can_recv`.
  unfoldable pub try_connect : Relay N → Relay N
  unfolding shut connect_isck
  try_connect info =
      let (ok, next) = connect_isck info in elim ok [ true ↦ next | false ↦ shut next ]

  -- `process_isck_out` with requests to send. An error is false. No more is sent than is given.
  unfoldable pub send_first : ℤ → Send → List Send → Relay N → Bool × Relay N
  unfolding left_after
  send_first sck asend rest info =
      let (taken, w) = N.send sck (out_slice asend) info.world in
      let next = record info { world = w } in
      elim taken [
        | none ↦ (false, next)
        | some n ↦
            let sent = min n (length (out_slice asend)) in
            if ltb 0 sent
            then (true, record next { queue = left_after sent asend rest })
            else (false, next)
      ]

  unfoldable pub process_isck_out : ℤ → Relay N → Bool × Relay N
  unfolding send_first
  process_isck_out sck info = elim info.queue [
    | [] ↦ (true, info)
    | asend ∷ rest ↦ send_first sck asend rest info
  ]

  unfoldable pub isck_can_send : ℤ → Relay N → Relay N
  unfolding shut process_isck_out
  isck_can_send sck info =
      let (ok, next) = process_isck_out sck (record info { connecting = false }) in
      elim ok [ true ↦ next | false ↦ shut next ]

  -- What is read is not looked at.
  unfoldable pub isck_can_recv : Bool → Relay N → Relay N
  unfolding shut
  isck_can_recv ok info = elim ok [
    | true ↦ info
    | false ↦ record (shut info) { connecting = false }
  ]

  abbrev pub send_if : Bool → ℤ → Relay N → Relay N
  send_if true sck info = isck_can_send sck info
  send_if false sck info = info

  -- The server's part of a round, on the socket that was polled. After an error on reading nothing is
  -- sent.
  unfoldable pub on_server : ℤ → Found → Relay N → Relay N
  unfolding isck_can_send isck_can_recv
  on_server sck found info = elim found.answered [
    | none ↦ send_if found.writable sck info
    | some ok ↦ elim ok [
      | true ↦ send_if found.writable sck (isck_can_recv true info)
      | false ↦ isck_can_recv false info
    ]
  ]

  -- The end of a round.
  unfoldable pub clear_out_queue : Relay N → Relay N
  clear_out_queue info = elim info.isck [ none ↦ record info { queue = [] } | some sck ↦ info ]

  unfoldable pub reload_config : Option (Option Settings) → Relay N → Relay N
  reload_config (some (some new_info)) info = record info { settings = new_info }
  reload_config (some none) info = info
  reload_config none info = info

  module _ (P : Parse) where
    -- The publisher's part.
    unfoldable pub csck_can_recv : Option (List ℕ) → Info (Relay N) → Option (Info (Relay N))
    unfolding try_connect
    csck_can_recv none info = some info
    csck_can_recv (some got) info =
        process_csck_in P (process_msg N P) got (record info { app = try_connect info.app })

    abbrev pub on_polled : Option ℤ → Found → Relay N → Relay N
    on_polled none found info = info
    on_polled (some sck) found info = on_server sck found info

    -- A round of `main_loop` without a signal to end. `none` is an error of a message, which ends the
    -- program.
    unfoldable pub round : Found → Info (Relay N) → Option (Info (Relay N))
    unfolding csck_can_recv on_server clear_out_queue reload_config
    round found info =
        elim (csck_can_recv found.received
          (record info { app = reload_config found.reload info.app })) [
            | none ↦ none
            | some next ↦
                some
                  (record next { app = clear_out_queue (on_polled info.app.isck found next.app) })
          ]

    unfoldable pub main_loop : List Found → Info (Relay N) → Option (Info (Relay N))
    unfolding round
    main_loop [] info = some info
    main_loop (found ∷ later) info = elim (round found info) [
      | none ↦ none
      | some next ↦ main_loop later next
    ]
