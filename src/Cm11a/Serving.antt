-- ===== src/Cm11a/Serving.antt =====
-- The rule for what serving the port leaves true (libcm11a/libcm11a.c, `libcm11a_check_wait_objs`).
use renogy_x.Base.{ℕ, ◌+◌, ◌-◌, ◌≤◌, ◌<◌}
use renogy_x.Base.{◌≡◌}
use renogy_x.Base.{none, some, List, [], ◌∷◌, ◌+ℤ◌, Bool, true, false}
use renogy_x.Base.{ℤ, pos, ltb_ℤ}
use renogy_x.Base.{Keeps}
use renogy_x.Base.{FdSet, Timeval, timeval_of_ms}
use renogy_x.Base.{Keeps-pure, Keeps-modify}
use renogy_x.Cm11a.Device.{Pointer, Host, State, Act, sys}
use renogy_x.Cm11a.Device.{data_block, call_pointer}
use renogy_x.Cm11a.Wait.{fd_can_read, fd_can_write}

module _ (H : Host) where
  -- The struct and the world when `done_write` is called: the data is freed and forgotten.
  abbrev pub drained : State H → State H
  drained s = record {
    dev = record (s.dev) { data_buf = none; data_sent = 0; data_bytes = 0 };
    world = H.free data_block s.world;
  }

  -- The state after `n` more bytes are sent.
  abbrev pub progressed : ℕ → State H → State H
  progressed n s = record s { dev = record (s.dev) { data_sent = s.dev.data_sent + n } }

  -- The write that `send_data` makes.
  abbrev pub write_call : List ℕ → State H → ℤ × H.World
  write_call bytes s =
      H.sp_blocking_write s.dev.port bytes (s.dev.data_bytes - s.dev.data_sent) 0 s.world

  -- The state behind that write.
  abbrev pub written : List ℕ → State H → State H
  written bytes s = record s { world = (write_call bytes s).1 }

  -- A call of the system keeps what holds of the new world.
  pub sys-Keeps :
      {A : Type 0} (Q : State H → Type 0) (f : H.World → A × H.World)
      → ((s : State H) → Q s → Q (record s { world = (f s.world).1 }))
      → Keeps Q (sys H f)
  sys-Keeps Q f = Keeps-modify Q _ _

  module _ (Q : State H → Type 0)
      (of_select : (s : State H) (nfds : ℤ) (r w : FdSet) (t : Timeval)
        → Q s
        → Q (record s { world = (H.select nfds r w t s.world).1 })) where
    pub can_read-Keeps : (fd : ℤ) → Keeps Q (sys H (fd_can_read H fd (pos 0)))
    unfolding fd_can_read
    can_read-Keeps fd = sys-Keeps Q _ (λ s v. go s v (ltb_ℤ fd (pos 0)))
      where
        go :
            (s : State H)
            → Q s
            → (b : Bool)
            → Q (record s {
              world =
                  (elim b as (λ _. Bool × H.World) [
                    | true ↦ (false, s.world)
                    | false ↦
                        let (r, w') =
                          H.select (fd +ℤ pos 1) (fd ∷ []) [] (timeval_of_ms (pos 0)) s.world in
                        (ltb_ℤ (pos 0) r.rv, w')
                  ]).1;
            })
        go s v true = v
        go s v false = of_select s _ _ _ _ v

    pub can_write-Keeps : (fd : ℤ) → Keeps Q (sys H (fd_can_write H fd (pos 0)))
    unfolding fd_can_write
    can_write-Keeps fd = sys-Keeps Q _ (λ s v. go s v (ltb_ℤ fd (pos 0)))
      where
        go :
            (s : State H)
            → Q s
            → (b : Bool)
            → Q (record s {
              world =
                  (elim b as (λ _. Bool × H.World) [
                    | true ↦ (false, s.world)
                    | false ↦
                        let (r, w') =
                          H.select (fd +ℤ pos 1) [] (fd ∷ []) (timeval_of_ms (pos 0)) s.world in
                        (ltb_ℤ (pos 0) r.rv, w')
                  ]).1;
            })
        go s v true = v
        go s v false = of_select s _ _ _ _ v

  module _ (call : H.App → Act H ℤ) (P : State H → Type 0) where
    -- What the functions of the application keep, a call through a pointer keeps.
    pub call_pointer-Keeps :
        ((f : H.App) → Keeps P (call f)) → (p : Pointer H.App) → Keeps P (call_pointer H call p)
    unfolding call_pointer
    call_pointer-Keeps calls (Pointer.app f) = calls f
    call_pointer-Keeps calls _ = Keeps-pure P (pos 0)

    -- What a property of the state has to withstand: a wait, a read, the end of a wait for a checksum,
    -- the callbacks, and a write that takes nothing, a part of the data, or all that is left.
    pub record IsStable : Type 0 where
      pub of_select :
          (s : State H) (nfds : ℤ) (r w : FdSet) (t : Timeval)
          → P s
          → P (record s { world = (H.select nfds r w t s.world).1 })
      pub of_read :
          (s : State H) (port : H.Handle)
          → P s
          → P (record s { world = (H.sp_blocking_read port 1 0 s.world).1 })
      pub of_answer :
          (s : State H) → P s → P (record s { dev = record (s.dev) { want_crc = false } })
      pub of_call : (p : Pointer H.App) → Keeps P (call_pointer H call p)
      pub of_refused :
          (s : State H) (bytes : List ℕ)
          → P s
          → s.dev.data_buf ≡ some bytes
          → ltb_ℤ (pos 0) (write_call bytes s).0 ≡ false
          → P (written bytes s)
      pub of_part :
          (s : State H) (bytes : List ℕ) (n : ℕ)
          → P s
          → s.dev.data_buf ≡ some bytes
          → (write_call bytes s).0 ≡ pos n
          → 0 < n
          → s.dev.data_sent + n < s.dev.data_bytes
          → P (progressed n (written bytes s))
      pub of_whole :
          (s : State H) (bytes : List ℕ) (n : ℕ)
          → P s
          → s.dev.data_buf ≡ some bytes
          → (write_call bytes s).0 ≡ pos n
          → 0 < n
          → s.dev.data_bytes ≤ s.dev.data_sent + n
          → P (drained (progressed n (written bytes s)))
