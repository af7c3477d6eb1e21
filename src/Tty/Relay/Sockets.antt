-- ===== src/Tty/Relay/Sockets.antt =====
-- The socket to the server (tty_reader/tty_reader_influx.zig): what it is opened with, and what goes out
-- on it.
use Prim.Native.Nat.{min}
use renogy_x.Base.{ℕ, ltb, if◌then◌else◌}
use renogy_x.Base.{◌≡◌, refl, subst, sym}
use renogy_x.Base.{Bool, true, false, Option, none, some, List, [], ◌∷◌, ◌++◌, ℤ, length}
use renogy_x.Tty.Parse.{Parse}
use renogy_x.Tty.Peers.{Send, out_slice, left_after}
use renogy_x.Tty.Queue.{pending}
use renogy_x.Tty.Relay.Settings.{Settings, Attempt, no_socket, refused, made, Net}
use renogy_x.Tty.Relay.Points.{Relay}
use renogy_x.Tty.Relay.Server.{
  Found, shut, connect_isck, try_connect, send_first, process_isck_out, isck_can_send,
  isck_can_recv, send_if, on_server, clear_out_queue, reload_config, on_polled,
}
use renogy_x.Tty.Relay.Streams.{
  ArePosted, nothing, IsCarried, Whole, IsWhole, Clean, IsClean, Clean-Whole, sent-Whole,
}

module _ (N : Net) (stream : N.World → List ℕ) (laws : IsCarried N stream) where
  -- Without a connection there is nothing to show.
  shut-IsWhole : (info : Relay N) → IsWhole N stream (shut N info)
  unfolding shut
  shut-IsWhole info = go info.isck refl
    where
      go :
          (isck : Option ℤ)
          → info.isck ≡ isck
          → IsWhole N stream (elim isck as (λ _. Relay N) [
            | none ↦ info
            | some sck ↦ record info { isck = none; world = N.close sck info.world }
          ])
      go none e = subst (λ i. Whole N stream i info.queue info.world) (sym e) tt
      go (some sck) e = tt

  -- A new connection starts with nothing.
  pub try_connect-IsWhole :
      (info : Relay N) → IsClean N stream info → IsWhole N stream (try_connect N info)
  unfolding try_connect connect_isck pending
  try_connect-IsWhole info clean = go info.isck clean
    where
      dial : Attempt → N.World → Bool × Relay N
      dial attempt w = elim attempt [
        | no_socket ↦ (false, record info { world = w })
        | refused sck ↦ (false, record info { isck = some sck; world = w })
        | made sck ↦ (true, record info { isck = some sck; connecting = true; world = w })
      ]

      settle : Bool × Relay N → Relay N
      settle (ok, next) = elim ok [ true ↦ next | false ↦ shut N next ]

      dialed :
          (attempt : Attempt) (w : N.World)
          → N.attempt info.settings info.world ≡ (attempt, w)
          → info.queue ≡ []
          → IsWhole N stream (settle (dial attempt w))
      dialed no_socket w e empty = shut-IsWhole (record info { world = w })
      dialed (refused sck) w e empty = shut-IsWhole (record info { isck = some sck; world = w })
      dialed (made sck) w e empty =
          let new = laws.of_made info.settings info.world w sck e in
          let none_yet : stream w ++ pending info.queue ≡ [] = cc (new, empty) in
          subst ArePosted (sym none_yet) nothing

      go :
          (isck : Option ℤ)
          → Clean N stream isck info.queue info.world
          → IsWhole N stream (
              settle (elim isck [
                | some sck ↦ (true, info)
                | none ↦ let (attempt, w) = N.attempt info.settings info.world in dial attempt w
              ]))
      go none empty =
          dialed (N.attempt info.settings info.world).0 (N.attempt info.settings info.world).1 refl
            empty
      go (some sck) h = Clean-Whole N stream info.isck info.queue info.world clean

  -- After a send.
  send_first-IsWhole :
      (sck : ℤ) (asend : Send) (rest : List Send) (info : Relay N)
      → Whole N stream info.isck (asend ∷ rest) info.world
      → let o = send_first N sck asend rest info in
        IsWhole N stream (elim o.0 [ true ↦ o.1 | false ↦ shut N o.1 ])
  unfolding send_first
  send_first-IsWhole sck asend rest info h = go (N.send sck (out_slice asend) info.world).0 refl
    where
      w : N.World
      w = (N.send sck (out_slice asend) info.world).1

      branch : Option ℕ → Bool × Relay N
      branch o = elim o [
        | none ↦ (false, record info { world = w })
        | some n ↦
            let sent = min n (length (out_slice asend)) in
            if ltb 0 sent
            then (true, record info { world = w; queue = left_after sent asend rest })
            else (false, record info { world = w })
      ]

      go :
          (o : Option ℕ)
          → (N.send sck (out_slice asend) info.world).0 ≡ o
          → IsWhole N stream
              (elim (branch o).0 [ true ↦ (branch o).1 | false ↦ shut N (branch o).1 ])
      go none e = shut-IsWhole (record info { world = w })
      go (some n) e = took (ltb 0 (min n (length (out_slice asend))))
        where
          took :
              (b : Bool)
              → let o : Bool × Relay N =
                  if b
                  then (
                    true,
                    record info {
                      world = w;
                      queue = left_after (min n (length (out_slice asend))) asend rest;
                    },
                  )
                  else (false, record info { world = w }) in
                IsWhole N stream (elim o.0 [ true ↦ o.1 | false ↦ shut N o.1 ])
          took true = sent-Whole N stream laws info.isck sck asend rest info.world w n (cc e) h
          took false = shut-IsWhole (record info { world = w })

  isck_can_send-IsWhole :
      (sck : ℤ) (info : Relay N)
      → IsWhole N stream info
      → IsWhole N stream (isck_can_send N sck info)
  unfolding isck_can_send process_isck_out
  isck_can_send-IsWhole sck info h = go info.queue h
    where
      ready : Relay N
      ready = record info { connecting = false }

      go :
          (queue : List Send)
          → Whole N stream info.isck queue info.world
          → let o : Bool × Relay N = elim queue as (λ _. Bool × Relay N) [
            | [] ↦ (true, ready)
            | asend ∷ rest ↦ send_first N sck asend rest ready
          ] in
            IsWhole N stream (elim o.0 [ true ↦ o.1 | false ↦ shut N o.1 ])
      go [] e = h
      go (asend ∷ rest) e = send_first-IsWhole sck asend rest ready e

  send_if-IsWhole :
      (b : Bool) (sck : ℤ) (info : Relay N)
      → IsWhole N stream info
      → IsWhole N stream (send_if N b sck info)
  send_if-IsWhole true sck info h = isck_can_send-IsWhole sck info h
  send_if-IsWhole false sck info h = h

  on_server-IsWhole :
      (sck : ℤ) (found : Found) (info : Relay N)
      → IsWhole N stream info
      → IsWhole N stream (on_server N sck found info)
  unfolding on_server isck_can_recv
  on_server-IsWhole sck found info h = go found.answered
    where
      go :
          (answered : Option Bool)
          → IsWhole N stream (elim answered [
            | none ↦ send_if N found.writable sck info
            | some ok ↦ elim ok [
              | true ↦ send_if N found.writable sck (isck_can_recv N true info)
              | false ↦ isck_can_recv N false info
            ]
          ])
      go none = send_if-IsWhole found.writable sck info h
      go (some true) = send_if-IsWhole found.writable sck info h
      go (some false) = shut-IsWhole info

  pub on_polled-IsWhole :
      (isck : Option ℤ) (P : Parse) (found : Found) (info : Relay N)
      → IsWhole N stream info
      → IsWhole N stream (on_polled N P isck found info)
  on_polled-IsWhole none P found info h = h
  on_polled-IsWhole (some sck) P found info h = on_server-IsWhole sck found info h

  pub clear_out_queue-IsClean :
      (info : Relay N) → IsWhole N stream info → IsClean N stream (clear_out_queue N info)
  unfolding clear_out_queue
  clear_out_queue-IsClean info h = go info.isck refl h
    where
      go :
          (isck : Option ℤ)
          → info.isck ≡ isck
          → Whole N stream isck info.queue info.world
          → IsClean N stream
              (elim isck as (λ _. Relay N) [ none ↦ record info { queue = [] } | some sck ↦ info ])
      go none e h = subst (λ i. Clean N stream i [] info.world) (sym e) refl
      go (some sck) e h = subst (λ i. Clean N stream i info.queue info.world) (sym e) h

  pub reload_config-IsClean :
      (reload : Option (Option Settings)) (info : Relay N)
      → IsClean N stream info
      → IsClean N stream (reload_config N reload info)
  unfolding reload_config
  reload_config-IsClean none info h = h
  reload_config-IsClean (some none) info h = h
  reload_config-IsClean (some (some new_info)) info h = h
