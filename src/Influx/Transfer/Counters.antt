-- ===== src/Influx/Transfer/Counters.antt =====
-- The counters of `main_send_recv_loop` (renogy_influx/renogy_influx.c): what a read and a write do to
-- them.
use renogy_x.Base.{ℕ, ◌+◌, ◌-◌, ◌≤◌, ltb, leb}
use renogy_x.Base.{◌≡◌, refl, ap, ◌∙◌, ◌⊎◌, inl, inr, arith, if◌then◌else◌, Bool-cases}
use renogy_x.Base.{true, false, List, [], ◌∷◌}
use renogy_x.Base.{length, take, drop, set, length-take, length-append, length-drop}
use renogy_x.Base.{ℤ, pos, pos_part, ltb_ℤ, ◌==ℤ◌}
use renogy_x.Base.{FdSet, fd_isset, Timeval}
use renogy_x.Influx.System.{System}
use renogy_x.Influx.Env.{Monitor, logln0}
use renogy_x.Influx.Transfer.Loop.{
  Progress, leave, go_on, bm1, Part, on_readable, on_writable, then_write, on_failure,
}

pub sign_neg : (z : ℤ) → (z ==ℤ pos 0) ≡ false → ltb_ℤ z (pos 1) ≡ true → ltb_ℤ z (pos 0) ≡ true
sign_neg z a b = ground arith

pub sign_pos : (z : ℤ) → (z ==ℤ pos 0) ≡ false → ltb_ℤ z (pos 1) ≡ false → ltb_ℤ (pos 0) z ≡ true
sign_pos z a b = ground arith

-- Some descriptor of the list is in the set.
abbrev pub SomeIn : FdSet → List ℤ → Type 0
SomeIn set [] = ⊥
SomeIn set (fd ∷ fds) = (fd_isset fd set ≡ true) ⊎ SomeIn set fds

module _ (S : System) where
  -- What the loop relies on. A `select` that counts ready descriptors leaves one that was asked for;
  -- one that fails leaves the sets alone; `recv` and `send` count no more than they were asked for.
  pub record IsPosix : Type 0 where
    pub select_ready :
        (nfds : ℤ) (r w : FdSet) (t : Timeval) (v : S.World)
        → ltb_ℤ (pos 0) (S.select nfds r w t v).0.rv ≡ true
        → SomeIn (S.select nfds r w t v).0.rfds r ⊎ SomeIn (S.select nfds r w t v).0.wfds w
    pub select_failed :
        (nfds : ℤ) (r w : FdSet) (t : Timeval) (v : S.World)
        → ltb_ℤ (S.select nfds r w t v).0.rv (pos 0) ≡ true
        → ((S.select nfds r w t v).0.rfds ≡ r) × ((S.select nfds r w t v).0.wfds ≡ w)
    pub recv_most :
        (fd : ℤ) (n : ℕ) (v : S.World)
        → (pos_part (S.recv fd n v).0.0 ≤ n)
          × (length (S.recv fd n v).0.1 ≡ pos_part (S.recv fd n v).0.0)
    pub send_most :
        (fd : ℤ) (bytes : List ℕ) (v : S.World) → pos_part (S.send fd bytes v).0 ≤ length bytes

  -- The counters describe the buffers.
  pub record IsValid (p : Progress) (s : Monitor S) : Type 0 where
    pub sent_le : p.buffer_out_sent ≤ length s.buffers.buffer_out
    pub read_le : p.buffer_in_read ≤ bm1
    pub received : length s.buffers.buffer_in ≡ p.buffer_in_read

  -- The bytes that can still move.
  abbrev pub bytes_left : Progress → Monitor S → ℕ
  bytes_left p s = (length s.buffers.buffer_out - p.buffer_out_sent) + (bm1 - p.buffer_in_read)

  -- A part that goes on keeps the counters right and the request as it is, and has moved at least
  -- `k` bytes.
  abbrev pub Advances : ℕ → Progress → Monitor S → Part S → Type 0
  Advances k p s (leave rv, t) = Unit {0}
  Advances k p s (go_on q, t) =
      IsValid q t
      × (bytes_left q t + k ≤ bytes_left p s)
      × (t.buffers.buffer_out ≡ s.buffers.buffer_out)

  pub on_failure-buffers : (s : Monitor S) → (on_failure S s).buffers ≡ s.buffers
  unfolding on_failure logln0
  on_failure-buffers s = refl

  pub on_failure-term_pipe : (s : Monitor S) → (on_failure S s).term_pipe ≡ s.term_pipe
  unfolding on_failure logln0
  on_failure-term_pipe s = refl

  module _ (posix : IsPosix) (sck : ℤ) where
    pub on_readable-Advances :
        (p : Progress) (s : Monitor S) → IsValid p s → Advances 1 p s (on_readable S sck p s)
    unfolding on_readable
    on_readable-Advances p s v =
        let room = bm1 - p.buffer_in_read in
        let got = S.recv sck room s.world in
        let most = posix.recv_most sck room s.world in
        elim (Bool-cases (leb bm1 p.buffer_in_read)) [
          | inl full ↦ rw full tt
          | inr free ↦ elim (Bool-cases (ltb_ℤ got.0.0 (pos 1))) [
            | inl bad ↦ rw (free, bad) tt
            | inr good ↦
                rw (free, good)
                  (ground (
                    arith,
                    most,
                    length-take (pos_part got.0.0) got.0.1,
                    length-append s.buffers.buffer_in (take (pos_part got.0.0) got.0.1),
                  ))
          ]
        ]

    pub on_writable-Advances :
        (p : Progress) (s : Monitor S)
        → IsValid p s
        → Advances
            (if ltb p.buffer_out_sent (length s.buffers.buffer_out) then 1 else 0)
            p
            s
            (on_writable S sck p s)
    unfolding on_writable
    on_writable-Advances p s v =
        let rest = drop p.buffer_out_sent s.buffers.buffer_out in
        let got = S.send sck rest s.world in
        elim (Bool-cases (ltb p.buffer_out_sent (length s.buffers.buffer_out))) [
          | inl more ↦ elim (Bool-cases (ltb_ℤ got.0 (pos 1))) [
            | inl bad ↦ rw (more, bad) tt
            | inr good ↦
                rw (more, good)
                  (ground (
                    arith,
                    posix.send_most sck rest s.world,
                    length-drop p.buffer_out_sent s.buffers.buffer_out,
                  ))
          ]
          | inr done ↦ rw done (ground arith)
        ]

    pub Advances-trans :
        (j k : ℕ) (p q : Progress) (s t : Monitor S) (part : Part S)
        → Advances j p s (go_on q, t)
        → Advances k q t part
        → Advances (j + k) p s part
    Advances-trans j k p q s t (leave rv, u) a b = tt
    Advances-trans j k p q s t (go_on r, u) (v, le, same) (v', le', same') =
        (v', omega (arith, ap length same, ap length same'), same' ∙ same)

    pub Advances-stay : (p : Progress) (s : Monitor S) → IsValid p s → Advances 0 p s (go_on p, s)
    Advances-stay p s v = (v, omega arith, refl)

    pub Advances-weaken :
        (j k : ℕ) (p : Progress) (s : Monitor S) (part : Part S)
        → k ≤ j
        → Advances j p s part
        → Advances k p s part
    Advances-weaken j k p s (leave rv, t) h a = tt
    Advances-weaken j k p s (go_on q, t) h (v, le, same) = (v, omega arith, same)

    pub then_write-Advances :
        (k : ℕ) (wfds : FdSet) (p : Progress) (s : Monitor S) (part : Part S)
        → Advances k p s part
        → Advances k p s (then_write S sck wfds part)
    unfolding then_write
    then_write-Advances k wfds p s (leave rv, t) a = tt
    then_write-Advances k wfds p s (go_on q, t) a = elim (Bool-cases (fd_isset sck wfds)) [
      | inl set ↦ rw set (
          Advances-weaken _ k p s (on_writable S sck q t) (omega arith)
            (Advances-trans k _ p q s t (on_writable S sck q t) a (on_writable-Advances q t a.0)))
      | inr clear ↦ rw clear a
    ]
