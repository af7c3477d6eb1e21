-- ===== src/Influx/Transfer/Loop.antt =====
-- `main_send_recv_loop` of renogy_influx/renogy_influx.c, round by round.
use renogy_x.Base.{ℕ, zero, suc, ◌+◌, ◌-◌, ltb, leb}
use renogy_x.Base.{if◌then◌else◌}
use renogy_x.Base.{Option, none, some, List, [], ◌∷◌, ◌++◌}
use renogy_x.Base.{length, take, drop}
use renogy_x.Base.{ℤ, pos, pos_part, ◌+ℤ◌, ◌-ℤ◌, ltb_ℤ, ◌==ℤ◌, wrap32}
use renogy_x.Base.{codes, decimal, c_str, occurs}
use renogy_x.Base.{FdSet, fd_isset, Selected, timeval_of_ms}
use renogy_x.Influx.System.{System}
use renogy_x.Influx.Log.{get_mstime, log_error, log_info}
use renogy_x.Influx.Env.{
  ErrorCode, error_none, error_fatal, error_connect, error_shutdown, Monitor, logln0,
}

-- `buffer_out_sent` and `buffer_in_read`.
pub record Progress : Type 0 where
  pub buffer_out_sent : ℕ
  pub buffer_in_read : ℕ

-- How a part of a round ends: the loop is left with a code, or goes on.
pub data Round : Type 0 where
  leave : ErrorCode → Round
  go_on : Progress → Round

-- `sizeof(buffers->buffer_in) - 1`
abbrev pub bm1 : ℕ
bm1 = 1023

-- `wait_mstime = end_send_time - now`, an `int`.
unfoldable pub wait_of : ℤ → ℤ → ℤ
unfolding wrap32 ◌-ℤ◌
wait_of end_send_time now = wrap32 (end_send_time -ℤ now)

module _ (S : System) where
  abbrev function_name : List ℕ
  function_name = codes "main_send_recv_loop"

  abbrev pub Part : Type 0
  Part = Round × Monitor S

  -- What the string in `buffer_in` makes of the end of the wait.
  unfoldable pub judge : List ℕ → Monitor S → Part
  judge [] s = (leave error_none, logln0 S log_info 170 function_name (codes "no return ?") s)
  judge (c ∷ cs) s = if occurs (codes "204 No Content") (c ∷ cs) then (leave error_none, s) else (
    leave error_fatal,
    logln0 S log_error 181 function_name (codes "some http error [" ++ (c ∷ (cs ++ codes "]"))) s,
  )

  -- `select` has waited to the end: the answer so far is judged.
  unfoldable pub on_timeout : Monitor S → Part
  on_timeout s = judge (c_str s.buffers.buffer_in) s

  unfoldable pub on_readable : ℤ → Progress → Monitor S → Part
  on_readable sck p s =
      let room = bm1 - p.buffer_in_read in
      let ((error, bytes), w) = S.recv sck room s.world in
      let s' = record s { world = w } in
      if leb bm1 p.buffer_in_read
      then (leave error_fatal, logln0 S log_error 200 function_name (codes "too big read") s)
      else if ltb_ℤ error (pos 1)
      then (leave error_connect, logln0 S log_error 207 function_name (codes "read failed") s')
      else (
        go_on (record p { buffer_in_read = p.buffer_in_read + pos_part error }),
        record s' {
          buffers = record (s.buffers) {
            buffer_in = s.buffers.buffer_in ++ take (pos_part error) bytes;
          };
        },
      )

  unfoldable pub on_writable : ℤ → Progress → Monitor S → Part
  on_writable sck p s =
      let (error, w) = S.send sck (drop p.buffer_out_sent s.buffers.buffer_out) s.world in
      let s' = record s { world = w } in
      if ltb p.buffer_out_sent (length s.buffers.buffer_out)
      then if ltb_ℤ error (pos 1)
        then (leave error_connect, logln0 S log_error 222 function_name (codes "write failed") s')
        else (go_on (record p { buffer_out_sent = p.buffer_out_sent + pos_part error }), s')
      else (go_on p, s)

  -- The write, where the round is not over.
  unfoldable pub then_write : ℤ → FdSet → Part → Part
  then_write sck wfds (leave rv, s) = (leave rv, s)
  then_write sck wfds (go_on p, s) = if fd_isset sck wfds then on_writable sck p s else (go_on p, s)

  -- The tests on the sets that `select` leaves.
  unfoldable pub on_ready : ℤ → Selected → Progress → Monitor S → Part
  on_ready sck r p s =
      if fd_isset s.term_pipe r.rfds
      then (
        leave error_shutdown,
        logln0 S log_info 191 function_name (codes "term set, shutting down") s,
      )
      else then_write sck r.wfds (if fd_isset sck r.rfds then on_readable sck p s else (go_on p, s))

  -- The note of a `select` that fails; the round goes on after it.
  unfoldable pub on_failure : Monitor S → Monitor S
  on_failure s =
      logln0 S log_info 186 function_name
        (codes "select failed, errstr ["
          ++ (S.strerror (S.errno s.world)
              ++ (codes "] errno [" ++ (decimal (pos_part (S.errno s.world)) ++ codes "]"))))
        s

  -- The call of `select`, for reading on the socket and on the pipe, and for writing on the socket
  -- while something is left to send.
  abbrev pub wanted : ℤ → Progress → Monitor S → FdSet
  wanted sck p s = if ltb p.buffer_out_sent (length s.buffers.buffer_out) then sck ∷ [] else []

  abbrev pub select_call : ℤ → ℤ → Progress → Monitor S → Selected × S.World
  select_call sck wait_mstime p s =
      let max_fd = if ltb_ℤ sck s.term_pipe then s.term_pipe else sck in
      S.select (max_fd +ℤ pos 1) (sck ∷ s.term_pipe ∷ []) (wanted sck p s)
        (timeval_of_ms wait_mstime) s.world

  unfoldable pub on_wait : ℤ → ℤ → Progress → Monitor S → Part
  on_wait sck wait_mstime p s =
      let (r, w) = select_call sck wait_mstime p s in
      let s' = record s { world = w } in
      if r.rv ==ℤ pos 0
      then on_timeout s'
      else on_ready sck r p (if ltb_ℤ r.rv (pos 1) then on_failure s' else s')

  -- One turn of the `for`.
  unfoldable pub send_recv_round : ℤ → ℤ → Progress → Monitor S → Part
  send_recv_round sck end_send_time p s =
      let (read, w) = get_mstime S s.world in
      let s' = record s { world = w } in
      elim read [
        | none ↦
            (leave error_fatal, logln0 S log_error 150 function_name (codes "get_mstime failed") s')
        | some now ↦
            let wait_mstime = wait_of end_send_time now in
            if ltb_ℤ wait_mstime (pos 0)
            then (leave error_fatal, logln0 S log_error 156 function_name (codes "out of time") s')
            else on_wait sck wait_mstime p s'
      ]

  -- What a turn leaves for the rest of the loop.
  unfoldable pub next_turn :
      (Progress → Monitor S → Option (ErrorCode × Monitor S))
      → Part
      → Option (ErrorCode × Monitor S)
  next_turn again (leave rv, t) = some (rv, t)
  next_turn again (go_on q, t) = again q t

  -- The `for`, with the turns that are left; `none` where they are used up.
  unfoldable pub send_recv_turns : ℤ → ℤ → ℕ → Progress → Monitor S → Option (ErrorCode × Monitor S)
  send_recv_turns sck end_send_time zero p s = none
  send_recv_turns sck end_send_time (suc fuel) p s =
      next_turn (send_recv_turns sck end_send_time fuel) (send_recv_round sck end_send_time p s)

  -- 3072 turns are enough: each but the last moves a byte, of at most 2047 and 1023.
  unfoldable pub main_send_recv_loop : ℤ → ℤ → Monitor S → Option (ErrorCode × Monitor S)
  main_send_recv_loop sck end_send_time s =
      send_recv_turns sck end_send_time 3072 (record { buffer_out_sent = 0; buffer_in_read = 0 })
        (record s { buffers = record (s.buffers) { buffer_in = [] } })
