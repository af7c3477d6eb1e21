-- ===== src/Influx/Monitor/Loops.antt =====
-- `main_connect_loop` and `main_modbus` of renogy_influx/renogy_influx.c, around `main_modbus_loop`.
use renogy_x.Base.{ℕ, zero, suc}
use renogy_x.Base.{if◌then◌else◌}
use renogy_x.Base.{none, some, List, ◌++◌}
use renogy_x.Base.{ℤ, pos, negsuc, ◌==ℤ◌}
use renogy_x.Base.{codes, printed}
use renogy_x.Influx.System.{System}
use renogy_x.Influx.Log.{log_error, log_info}
use renogy_x.Influx.Env.{
  ErrorCode, error_none, error_fatal, error_connect, error_modbus, Monitor, logln0,
}
use renogy_x.Influx.Request.{influx_hostname, influx_port}
use renogy_x.Influx.Monitor.Turns.{
  decimal_ℤ, renogy_id, Outcome, after, repeat, note_shutdown, sleep_minute, main_modbus_loop,
}

module _ (S : System) where
  -- After `main_modbus_loop`: a connection that is lost is opened again a minute later.
  unfoldable pub on_lost : ErrorCode → Monitor S → ErrorCode × Monitor S
  on_lost error_connect s = (
    error_none,
    sleep_minute S (
        logln0 S log_info 333 (codes "main_connect_loop")
          (codes "tcp down, reconnecting after 1 min sleep") s),
  )
  on_lost rv s = (rv, s)

  -- The connection to an address that was found.
  unfoldable pub on_address : S.Modbus → ℤ → ℕ → List ℕ → Monitor S → Outcome S
  on_address ctx sck fuel ip s0 =
      let text = printed 64 ip in
      let s1 =
        logln0 S log_info 324 (codes "main_connect_loop") (codes "starting tcp connect")
          (record s0 { buffers = record (s0.buffers) { influx_ip = text } }) in
      let (error, w) = S.connect sck text influx_port s1.world in
      let s2 = record s1 { world = w } in
      if error ==ℤ pos 0
      then after S
          (main_modbus_loop S ctx sck fuel
            (logln0 S log_info 329 (codes "main_connect_loop") (codes "tcp connected") s2))
          (λ rv t. some (on_lost rv t))
      else some (
        error_none,
        sleep_minute S (
            logln0 S log_error 341 (codes "main_connect_loop")
              (codes "tcp connect failed, retry after 1 min sleep") s2),
      )

  -- With a socket: the name is resolved, and the socket closed at the end.
  unfoldable pub on_socket : S.Modbus → ℤ → ℕ → Monitor S → Outcome S
  on_socket ctx sck fuel s =
      let s1 = logln0 S log_info 312 (codes "main_connect_loop") (codes "tcp sck created ok") s in
      let (he, w) = S.gethostbyname influx_hostname s1.world in
      let s2 = record s1 { world = w } in
      after S
        (elim he [
          | none ↦ some (
            error_none,
            sleep_minute S (
                logln0 S log_error 349 (codes "main_connect_loop")
                  (codes "gethostbyname failed, retry after 1 min sleep") s2),
          )
          | some ip ↦ on_address ctx sck fuel ip s2
        ])
        (λ rv t. some (rv, record t { world = S.close sck t.world }))

  unfoldable pub connect_turn : S.Modbus → ℕ → Monitor S → Outcome S
  connect_turn ctx fuel s =
      let (sck, w) = S.socket s.world in
      let s1 = record s { world = w } in
      after S
        (if sck ==ℤ negsuc 0
          then some (
            error_fatal,
            logln0 S log_error 358 (codes "main_connect_loop") (codes "tcp socket create failed")
                s1,
          )
          else on_socket ctx sck fuel s1)
        (λ rv t. some (rv, note_shutdown S 364 (codes "main_connect_loop") rv t))

  -- `inner` bounds the turns of each inner loop, and the next number those of this one.
  unfoldable pub main_connect_loop : S.Modbus → ℕ → ℕ → Monitor S → Outcome S
  main_connect_loop ctx inner zero s = none
  main_connect_loop ctx inner (suc fuel) s =
      after S (connect_turn ctx inner s) (repeat S (main_connect_loop ctx inner fuel))

  -- With a context of the bus: it is set up, used and freed.
  unfoldable pub on_context : S.Modbus → ℕ → Monitor S → Outcome S
  on_context ctx inner s =
      let function = codes "main_modbus" in
      let s1 = logln0 S log_info 392 function (codes "modbus_new_rtu ok") s in
      let (error, w1) = S.modbus_set_error_recovery ctx s1.world in
      let s2 =
        logln0 S log_info 396 function (codes "modbus_set_error_recovery error " ++ decimal_ℤ error)
          (record s1 { world = w1 }) in
      let (connected, w2) = S.modbus_connect ctx (S.modbus_set_slave ctx renogy_id s2.world) in
      let s3 = record s2 { world = w2 } in
      after S
        (if connected ==ℤ negsuc 0
          then some (
            error_fatal,
            logln0 S log_error 407 function
                (codes "connection failed [" ++ (S.modbus_strerror (S.errno w2) ++ codes "]")) s3,
          )
          else main_connect_loop ctx inner inner
              (logln0 S log_info 402 function (codes "connection ok") s3))
        (λ rv t. some (rv, record t { world = S.modbus_free ctx t.world }))

  -- A fault of the bus is tried again a minute later.
  unfoldable pub on_modbus_error : ErrorCode → Monitor S → ErrorCode × Monitor S
  on_modbus_error error_modbus s = (
    error_none,
    sleep_minute S (
        logln0 S log_info 418 (codes "main_modbus") (codes "modbus issue, retry after 1 min sleep")
          s),
  )
  on_modbus_error rv s = (rv, s)

  unfoldable pub bus_turn : ℕ → Monitor S → Outcome S
  bus_turn inner s =
      let (new, w) = S.modbus_new_rtu s.world in
      let s1 = record s { world = w } in
      after S
        (elim new [
          | none ↦ some (
            error_fatal,
            logln0 S log_error 414 (codes "main_modbus") (codes "modbus_new_rtu failed") s1,
          )
          | some ctx ↦ on_context ctx inner s1
        ])
        (λ rv t. some (on_modbus_error rv t))

  unfoldable pub bus_loop : ℕ → ℕ → Monitor S → Outcome S
  bus_loop inner zero s = none
  bus_loop inner (suc fuel) s = after S (bus_turn inner s) (repeat S (bus_loop inner fuel))

  -- 3200 is `sizeof(struct buffers_t)`.
  unfoldable pub main_modbus : ℕ → ℕ → Monitor S → Outcome S
  main_modbus inner fuel s =
      let (given, w) = S.malloc 3200 s.world in
      let s1 = record s { world = w } in
      after S
        (if given
          then after S (bus_loop inner fuel s1)
              (λ rv t. some (rv, record t { world = S.free t.world }))
          else some (
            error_fatal,
            logln0 S log_error 432 (codes "main_modbus") (codes "malloc failed") s1,
          ))
        (λ rv t. some (rv, note_shutdown S 436 (codes "main_modbus") rv t))
