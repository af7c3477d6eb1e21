-- ===== src/Influx/Transfer/Resources.antt =====
-- The exchange with the server takes and gives back nothing of the system
-- (renogy_influx/renogy_influx.c, `main_send_recv_loop`).
use renogy_x.Base.{ℕ, zero, suc}
use renogy_x.Base.{◌≡◌, ◌∙◌, if◌then◌else◌}
use renogy_x.Base.{Bool, true, false, Option, none, some, List, [], ◌∷◌}
use renogy_x.Base.{ℤ, FdSet, Selected, drop, fd_isset, pos, ltb_ℤ, ◌==ℤ◌, ◌-◌}
use renogy_x.Influx.System.{System}
use renogy_x.Influx.Log.{get_mstime}
use renogy_x.Influx.Env.{ErrorCode, Monitor, logln0}
use renogy_x.Influx.Held.{Units, IsHeld, held-logln0}
use renogy_x.Influx.Monitor.Turns.{Outcome}
use renogy_x.Influx.Monitor.Outcomes.{Yields, Yields-some, Yields-none}
use renogy_x.Influx.Transfer.Loop.{
  Progress, Round, wait_of, bm1, leave, go_on, Part, judge, on_timeout, select_call, on_readable,
  on_writable, then_write, on_ready, on_failure, on_wait, send_recv_round, next_turn,
  send_recv_turns, main_send_recv_loop,
}

module _ (S : System) (held : S.World → ℕ) (u : Units) (laws : IsHeld S held u) where
  abbrev pub Holds : ℕ → Monitor S → Type 0
  Holds n s = held s.world ≡ n

  PartHolds : ℕ → Part S → Type 0
  PartHolds n p = Holds n p.1

  kept : {n : ℕ} (r : Round) (s : Monitor S) → Holds n s → PartHolds n (r, s)
  unfolding PartHolds
  kept r s h = h

  PartHolds-if :
      (n : ℕ) (b : Bool) (p q : Part S)
      → PartHolds n p
      → PartHolds n q
      → PartHolds n (if b then p else q)
  PartHolds-if n true p q h k = h
  PartHolds-if n false p q h k = k

  PartHolds-option :
      {A : Type 0} (n : ℕ) (o : Option A) (p : Part S) (f : A → Part S)
      → PartHolds n p
      → ((a : A) → PartHolds n (f a))
      → PartHolds n (elim o [ none ↦ p | some a ↦ f a ])
  PartHolds-option n none p f h k = h
  PartHolds-option n (some a) p f h k = k a

  -- A line in the log.
  logged :
      (n log_level line : ℕ) (function text : List ℕ) (s : Monitor S)
      → Holds n s
      → held (logln0 S log_level line function text s).world ≡ n
  logged n log_level line function text s h =
      held-logln0 S held u laws log_level line function text s ∙ h

  -- A part that writes a line and leaves the loop.
  left :
      {n : ℕ} (rv : ErrorCode) (log_level line : ℕ) (function text : List ℕ) (s : Monitor S)
      → Holds n s
      → PartHolds n (leave rv, logln0 S log_level line function text s)
  left {n} rv log_level line function text s h =
      kept _ _ (logged n log_level line function text s h)

  judge-Holds : (text : List ℕ) (n : ℕ) (s : Monitor S) → Holds n s → PartHolds n (judge S text s)
  unfolding judge
  judge-Holds [] n s h = left _ _ _ _ _ s h
  judge-Holds (c ∷ cs) n s h = search (PartHolds-if, left, kept, h)

  on_readable-Holds :
      (sck : ℤ) (p : Progress) (n : ℕ) (s : Monitor S)
      → Holds n s
      → PartHolds n (on_readable S sck p s)
  unfolding on_readable
  on_readable-Holds sck p n s h =
      let got = laws.of_recv sck (bm1 - p.buffer_in_read) s.world ∙ h in
      search (PartHolds-if, left, kept, h, got)

  on_writable-Holds :
      (sck : ℤ) (p : Progress) (n : ℕ) (s : Monitor S)
      → Holds n s
      → PartHolds n (on_writable S sck p s)
  unfolding on_writable
  on_writable-Holds sck p n s h =
      let sent = laws.of_send sck (drop p.buffer_out_sent s.buffers.buffer_out) s.world ∙ h in
      search (PartHolds-if, left, kept, h, sent)

  then_write-Holds :
      (sck : ℤ) (wfds : FdSet) (n : ℕ) (p : Part S)
      → PartHolds n p
      → PartHolds n (then_write S sck wfds p)
  unfolding then_write PartHolds
  then_write-Holds sck wfds n (leave rv, s) h = h
  then_write-Holds sck wfds n (go_on p, s) h =
      PartHolds-if n (fd_isset sck wfds) _ _ (on_writable-Holds sck p n s h) h

  on_ready-Holds :
      (sck : ℤ) (r : Selected) (p : Progress) (n : ℕ) (s : Monitor S)
      → Holds n s
      → PartHolds n (on_ready S sck r p s)
  unfolding on_ready
  on_ready-Holds sck r p n s h =
      search (PartHolds-if, left, kept, h, then_write-Holds, on_readable-Holds)

  noted : (b : Bool) (n : ℕ) (s : Monitor S) → Holds n s → Holds n (if b then on_failure S s else s)
  unfolding on_failure
  noted true n s h = logged n _ _ _ _ s h
  noted false n s h = h

  on_wait-Holds :
      (sck wait_mstime : ℤ) (p : Progress) (n : ℕ) (s : Monitor S)
      → Holds n s
      → PartHolds n (on_wait S sck wait_mstime p s)
  unfolding on_wait on_timeout
  on_wait-Holds sck wait_mstime p n s h =
      let call = select_call S sck wait_mstime p s in
      let waited : held call.1 ≡ n = laws.of_select _ _ _ _ s.world ∙ h in
      PartHolds-if n (call.0.rv ==ℤ pos 0) _ _ (judge-Holds _ n _ waited)
        (on_ready-Holds sck call.0 p n _ (noted (ltb_ℤ call.0.rv (pos 1)) n _ waited))

  pub get_mstime-Holds : (n : ℕ) (w : S.World) → held w ≡ n → held (get_mstime S w).1 ≡ n
  unfolding get_mstime
  get_mstime-Holds n w h = laws.heap.of_clock w ∙ h

  round-Holds :
      (sck end_send_time : ℤ) (p : Progress) (n : ℕ) (s : Monitor S)
      → Holds n s
      → PartHolds n (send_recv_round S sck end_send_time p s)
  unfolding send_recv_round
  round-Holds sck end_send_time p n s h =
      let timed = get_mstime-Holds n s.world h in
      PartHolds-option n (get_mstime S s.world).0 _ _ (left _ _ _ _ _ _ timed) (λ now.
        PartHolds-if n (ltb_ℤ (wait_of end_send_time now) (pos 0)) _ _ (left _ _ _ _ _ _ timed)
          (on_wait-Holds sck (wait_of end_send_time now) p n _ timed))

  next_turn-Holds :
      (n : ℕ) (again : Progress → Monitor S → Outcome S) (p : Part S)
      → PartHolds n p
      → ((q : Progress) (t : Monitor S) → Holds n t → Yields S (λ rv. Holds n) (again q t))
      → Yields S (λ rv. Holds n) (next_turn S again p)
  unfolding next_turn PartHolds
  next_turn-Holds n again (leave rv, t) h f = Yields-some S (λ rv. Holds n) h
  next_turn-Holds n again (go_on q, t) h f = f q t h

  turns-Holds :
      (sck end_send_time : ℤ) (fuel : ℕ) (p : Progress) (n : ℕ) (s : Monitor S)
      → Holds n s
      → Yields S (λ rv. Holds n) (send_recv_turns S sck end_send_time fuel p s)
  unfolding send_recv_turns
  turns-Holds sck end_send_time zero p n s h = Yields-none S _
  turns-Holds sck end_send_time (suc fuel) p n s h =
      next_turn-Holds n _ _ (round-Holds sck end_send_time p n s h)
        (λ q t k. turns-Holds sck end_send_time fuel q n t k)

  -- However the exchange ends, as much is held after it as before.
  pub main_send_recv_loop-Holds :
      (sck end_send_time : ℤ) (n : ℕ) (s : Monitor S)
      → Holds n s
      → Yields S (λ rv. Holds n) (main_send_recv_loop S sck end_send_time s)
  unfolding main_send_recv_loop
  main_send_recv_loop-Holds sck end_send_time n s h = turns-Holds sck end_send_time 3072 _ n _ h
