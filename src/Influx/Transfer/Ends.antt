-- ===== src/Influx/Transfer/Ends.antt =====
-- The loop of `main_send_recv_loop` (renogy_influx/renogy_influx.c) comes to an end: each turn but the
-- last moves a byte, and the buffers bound how many there are.
use renogy_x.Base.{ℕ, zero, suc, ◌<◌, ltb}
use renogy_x.Base.{◌≡◌, refl, ap, ◌∙◌, subst, ◌⊎◌, inl, inr, arith, if◌then◌else◌, Bool-cases}
use renogy_x.Base.{true, false, Option, none, some, List, [], ◌∷◌}
use renogy_x.Base.{length, set}
use renogy_x.Base.{ℤ, pos, ltb_ℤ, ◌==ℤ◌}
use renogy_x.Base.{codes, c_str, occurs}
use renogy_x.Base.{FdSet, fd_isset, Timeval, Selected}
use renogy_x.Influx.System.{System}
use renogy_x.Influx.Log.{get_mstime, log_error}
use renogy_x.Influx.Env.{ErrorCode, error_fatal, Monitor, logln0}
use renogy_x.Influx.Transfer.Loop.{
  wait_of, Progress, leave, go_on, Part, judge, on_timeout, on_readable, on_writable, then_write,
  on_ready, on_failure, wanted, select_call, on_wait, send_recv_round, next_turn, send_recv_turns,
  main_send_recv_loop,
}
use renogy_x.Influx.Transfer.Counters.{
  sign_neg, sign_pos, SomeIn, IsPosix, IsValid, bytes_left, Advances, on_failure-buffers,
  on_failure-term_pipe, on_readable-Advances, on_writable-Advances, then_write-Advances,
}

module _ (S : System) (posix : IsPosix S) (sck : ℤ) where
  -- Where neither the pipe nor the socket can be read, the socket can be written, and was asked for.
  only_write :
      (r : Selected) (p : Progress) (s : Monitor S)
      → IsValid S p s
      → SomeIn r.rfds (sck ∷ s.term_pipe ∷ []) ⊎ SomeIn r.wfds (wanted S sck p s)
      → fd_isset s.term_pipe r.rfds ≡ false
      → fd_isset sck r.rfds ≡ false
      → Advances S 1 p s (then_write S sck r.wfds (go_on p, s))
  unfolding then_write
  only_write r p s v ready clear silent =
      let more : (ltb p.buffer_out_sent (length s.buffers.buffer_out) ≡ true)
          × (fd_isset sck r.wfds ≡ true) =
        ground arith in
      rw (more.1) (
        subst (λ b. Advances S (if b then 1 else 0) p s (on_writable S sck p s)) more.0
          (on_writable-Advances S posix sck p s v))

  on_ready-Advances :
      (r : Selected) (p : Progress) (s : Monitor S)
      → IsValid S p s
      → SomeIn r.rfds (sck ∷ s.term_pipe ∷ []) ⊎ SomeIn r.wfds (wanted S sck p s)
      → Advances S 1 p s (on_ready S sck r p s)
  unfolding on_ready
  on_ready-Advances r p s v ready = elim (Bool-cases (fd_isset s.term_pipe r.rfds)) [
    | inl set ↦ rw set tt
    | inr clear ↦ rw clear (elim (Bool-cases (fd_isset sck r.rfds)) [
      | inl readable ↦ rw readable (
          then_write-Advances S posix sck 1 r.wfds p s (on_readable S sck p s)
            (on_readable-Advances S posix sck p s v))
      | inr silent ↦ rw silent (only_write r p s v ready clear silent)
    ])
  ]

  judge-Advances :
      (reply : List ℕ) (p : Progress) (s t : Monitor S) → Advances S 1 p s (judge S reply t)
  unfolding judge
  judge-Advances [] p s t = tt
  judge-Advances (c ∷ cs) p s t = elim (Bool-cases (occurs (codes "204 No Content") (c ∷ cs))) [
    | inl found ↦ rw found tt
    | inr missing ↦ rw missing tt
  ]

  -- The counters stay right when the log is written or the world moves on.
  moved : (p : Progress) (s t : Monitor S) → t.buffers ≡ s.buffers → IsValid S p s → IsValid S p t
  moved p s t e v = ground arith

  elsewhere :
      (p : Progress) (s t : Monitor S) (part : Part S)
      → t.buffers ≡ s.buffers
      → Advances S 1 p t part
      → Advances S 1 p s part
  elsewhere p s t (leave rv, u) e a = tt
  elsewhere p s t (go_on q, u) e (v, le, same) =
      (v, omega (arith, ap (λ b. length b.buffer_out) e), same ∙ ap (λ b. b.buffer_out) e)

  -- A `select` that fails leaves the pipe in its set.
  pipe_left :
      (nfds : ℤ) (w : FdSet) (t : Timeval) (s : Monitor S)
      → let r = (S.select nfds (sck ∷ s.term_pipe ∷ []) w t s.world).0 in
        ltb_ℤ r.rv (pos 0) ≡ true → fd_isset s.term_pipe r.rfds ≡ true
  pipe_left nfds w t s neg =
      let same = (posix.select_failed nfds (sck ∷ s.term_pipe ∷ []) w t s.world neg).0 in
      rw same (ground arith)

  on_wait-Advances :
      (wait_mstime : ℤ) (p : Progress) (s : Monitor S)
      → IsValid S p s
      → Advances S 1 p s (on_wait S sck wait_mstime p s)
  unfolding on_wait on_timeout
  on_wait-Advances wait_mstime p s v =
      let (r, w) = select_call S sck wait_mstime p s in
      let s' = record s { world = w } in
      let on_pipe : ltb_ℤ r.rv (pos 0) ≡ true
          → SomeIn r.rfds (sck ∷ (on_failure S s').term_pipe ∷ [])
            ⊎ SomeIn r.wfds (wanted S sck p (on_failure S s')) =
        λ neg. inl (inr (inl (rw (on_failure-term_pipe S s') (pipe_left _ _ _ s neg)))) in
      elim (Bool-cases (r.rv ==ℤ pos 0)) [
        | inl ended ↦ rw ended (judge-Advances (c_str s.buffers.buffer_in) p s s')
        | inr ready ↦ rw ready (elim (Bool-cases (ltb_ℤ r.rv (pos 1))) [
          | inl bad ↦ rw bad (
              elsewhere p s (on_failure S s') _ (on_failure-buffers S s') (
                on_ready-Advances r p (on_failure S s')
                  (moved p s (on_failure S s') (on_failure-buffers S s') v)
                  (on_pipe (sign_neg r.rv ready bad))))
          | inr good ↦ rw good (
              elsewhere p s s' _ refl (
                on_ready-Advances r p s' (moved p s s' refl v) (
                  posix.select_ready _ (sck ∷ s.term_pipe ∷ []) (wanted S sck p s) _ s.world
                    (sign_pos r.rv ready good))))
        ])
      ]

  send_recv_round-Advances :
      (end_send_time : ℤ) (p : Progress) (s : Monitor S)
      → IsValid S p s
      → Advances S 1 p s (send_recv_round S sck end_send_time p s)
  unfolding send_recv_round
  send_recv_round-Advances end_send_time p s v = go (get_mstime S s.world).0
    where
      t : Monitor S
      t = record s { world = (get_mstime S s.world).1 }

      go :
          (read : Option ℤ)
          → Advances S 1 p s (elim read [
            | none ↦ (
              leave error_fatal,
              logln0 S log_error 150 (codes "main_send_recv_loop") (codes "get_mstime failed") t,
            )
            | some now ↦
                if ltb_ℤ (wait_of end_send_time now) (pos 0)
                then (
                  leave error_fatal,
                  logln0 S log_error 156 (codes "main_send_recv_loop") (codes "out of time") t,
                )
                else on_wait S sck (wait_of end_send_time now) p t
          ])
      go none = tt
      go (some now) = elim (Bool-cases (ltb_ℤ (wait_of end_send_time now) (pos 0))) [
        | inl late ↦ rw late tt
        | inr early ↦ rw early (
            elsewhere p s t _ refl
              (on_wait-Advances (wait_of end_send_time now) p t (moved p s t refl v)))
      ]

  -- The loop ends within as many turns as bytes are left, and one.
  send_recv_turns_end :
      (end_send_time : ℤ) (fuel : ℕ) (p : Progress) (s : Monitor S)
      → IsValid S p s
      → bytes_left S p s < fuel
      → (rv : ErrorCode) × (t : Monitor S) × (send_recv_turns S sck end_send_time fuel p s
          ≡ some (rv, t))
  unfolding send_recv_turns
  send_recv_turns_end end_send_time zero p s v h = elim h [ ]
  send_recv_turns_end end_send_time (suc fuel) p s v h =
      go (send_recv_round S sck end_send_time p s) (send_recv_round-Advances end_send_time p s v)
        (send_recv_turns_end end_send_time fuel)
    where
      go :
          (part : Part S)
          → Advances S 1 p s part
          → ((q : Progress) (t : Monitor S)
              → IsValid S q t
              → bytes_left S q t < fuel
              → (rv : ErrorCode) × (u : Monitor S) × (send_recv_turns S sck end_send_time fuel q t
                  ≡ some (rv, u)))
          → (rv : ErrorCode) × (u : Monitor S) × (next_turn S
                (send_recv_turns S sck end_send_time fuel)
                part
              ≡ some (rv, u))
      go (leave rv, t) a again = (rv, t, unfold next_turn in refl)
      go (go_on q, t) a again = unfold next_turn in again q t a.0 (omega arith)

  -- The exchange always ends with a code, if the request fits its buffer and the system counts as
  -- documented: the turns of the loop do not run out.
  pub main_send_recv_loop_ends :
      (end_send_time : ℤ) (s : Monitor S)
      → length s.buffers.buffer_out < 2048
      → (rv : ErrorCode) × (t : Monitor S) × (main_send_recv_loop S sck end_send_time s
          ≡ some (rv, t))
  unfolding main_send_recv_loop
  main_send_recv_loop_ends end_send_time s h =
      send_recv_turns_end end_send_time 3072 _ _ (omega arith) (omega arith)
