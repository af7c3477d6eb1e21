-- ===== src/X10/Handshake.antt =====
-- What a handshake puts on the serial line (examples/x10_cm11/x10_cm11.c).
use renogy_x.Base.{ℕ, zero, suc, ◌+◌, ◌%◌, ◌<◌, ◌==◌}
use renogy_x.Base.{◌≡◌, refl, ap, sym, ◌∙◌, arith}
use renogy_x.Base.{Bool, true, false, ◌&&◌, Option, some, List, [], ◌∷◌, ◌++◌}
use renogy_x.Base.{ℤ, pos, ◌==ℤ◌}
use renogy_x.Cm11a.Device.{Host}
use renogy_x.X10.Loop.{handshake}
use mathlib.Core.List.{append_assoc}

differ : {A : Type 0} → true ≡ false → A
differ e = cc e

-- `k` attempts to send two bytes.
abbrev pub attempts : ℕ → ℕ → ℕ → List ℕ
attempts a b zero = []
attempts a b (suc k) = a ∷ b ∷ attempts a b k

module _ (H : Host) (usleep : ℕ → H.World → H.World) (port : H.Handle) (a b : ℕ) where
  -- The line and the answer after one attempt.
  abbrev pub sent : H.World → (ℤ × ℕ) × H.World
  sent w = H.sp_blocking_read port 1 0 (H.sp_blocking_write port (a ∷ b ∷ []) 2 0 w).1

  -- The attempt is answered by the checksum of the two bytes.
  abbrev pub confirmed : H.World → Bool
  confirmed w = ((sent w).0.0 ==ℤ pos 1) && ((sent w).0.1 == (a + b) % 256)

  -- What is decided after an attempt.
  abbrev decided : Bool → ℕ → H.World → Option (Unit {0} × H.World)
  decided c fuel w = elim c [
    | true ↦ some (tt, (H.sp_blocking_write port (0x00 ∷ []) 1 0 w).1)
    | false ↦ handshake H usleep port a b fuel w
  ]

  -- The line after `k` attempts.
  abbrev pub line_after : ℕ → H.World → H.World
  line_after zero w = w
  line_after (suc k) w = line_after k (sent w).1

  decided-returns :
      (c : Bool) (fuel : ℕ) (w : H.World)
      → (c ≡ false → (w' : H.World) × (handshake H usleep port a b fuel w ≡ some (tt, w')))
      → (w' : H.World) × (decided c fuel w ≡ some (tt, w'))
  decided-returns true fuel w rest = ((H.sp_blocking_write port (0x00 ∷ []) 1 0 w).1, refl)
  decided-returns false fuel w rest = rest refl

  -- If the attempt after `k` others is answered by the checksum, the handshake comes back within
  -- `k + 1` attempts.
  pub handshake-returns :
      (k fuel : ℕ) (w : H.World)
      → k < fuel
      → confirmed (line_after k w) ≡ true
      → (w' : H.World) × (handshake H usleep port a b fuel w ≡ some (tt, w'))
  unfolding handshake
  handshake-returns k zero w h c = absurd (omega arith)
  handshake-returns zero (suc fuel) w h c =
      decided-returns (confirmed w) fuel (sent w).1 (λ n. differ (sym c ∙ n))
  handshake-returns (suc k) (suc fuel) w h c =
      decided-returns (confirmed w) fuel (sent w).1
        (λ _. handshake-returns k fuel (sent w).1 (omega arith) c)

module _ (H : Host) (usleep : ℕ → H.World → H.World) (wire : H.World → List ℕ) where
  -- `wire` is what the line has carried: a write puts its bytes there, and a read puts nothing.
  pub record IsWhole : Type 0 where
    pub of_two :
        (port : H.Handle) (a b : ℕ) (w : H.World)
        → wire (H.sp_blocking_write port (a ∷ b ∷ []) 2 0 w).1 ≡ wire w ++ (a ∷ b ∷ [])
    pub of_one :
        (port : H.Handle) (a : ℕ) (w : H.World)
        → wire (H.sp_blocking_write port (a ∷ []) 1 0 w).1 ≡ wire w ++ (a ∷ [])
    pub of_read : (port : H.Handle) (w : H.World) → wire (H.sp_blocking_read port 1 0 w).1 ≡ wire w

  module _ (laws : IsWhole) (port : H.Handle) (a b : ℕ) where
    wire-sent : (w : H.World) → wire (sent H usleep port a b w).1 ≡ wire w ++ (a ∷ b ∷ [])
    wire-sent w =
        laws.of_read port (H.sp_blocking_write port (a ∷ b ∷ []) 2 0 w).1 ∙ laws.of_two port a b w

    abbrev Sends : H.World → H.World → Type 0
    Sends w w' = (k : ℕ) × (wire w' ≡ wire w ++ (attempts a b (suc k) ++ (0x00 ∷ [])))

    -- One attempt more in front.
    Sends-sent : (w w' : H.World) → Sends (sent H usleep port a b w).1 w' → Sends w w'
    Sends-sent w w' (k, q) = (
      suc k,
      q
          ∙ ap (λ t. t ++ (attempts a b (suc k) ++ (0x00 ∷ []))) (wire-sent w)
          ∙ append_assoc (wire w) (a ∷ b ∷ []) (attempts a b (suc k) ++ (0x00 ∷ [])),
    )

    decided-Sends :
        (c : Bool) (fuel : ℕ) (w w' : H.World)
        → (handshake H usleep port a b fuel (sent H usleep port a b w).1 ≡ some (tt, w')
            → Sends (sent H usleep port a b w).1 w')
        → decided H usleep port a b c fuel (sent H usleep port a b w).1 ≡ some (tt, w')
        → Sends w w'
    decided-Sends true fuel w w' rest e =
        let x = (H.sp_blocking_write port (0x00 ∷ []) 1 0 (sent H usleep port a b w).1).1 in
        let same : x ≡ w' = cc e in
        (
          0,
          ap wire (sym same)
              ∙ laws.of_one port 0x00 (sent H usleep port a b w).1
              ∙ ap (λ t. t ++ (0x00 ∷ [])) (wire-sent w)
              ∙ append_assoc (wire w) (a ∷ b ∷ []) (0x00 ∷ []),
        )
    decided-Sends false fuel w w' rest e = Sends-sent w w' (rest e)

    -- On a line that carries each write whole, a handshake that comes back has sent the two bytes at
    -- least once, and then one zero.
    pub wire-handshake :
        (fuel : ℕ) (w w' : H.World)
        → handshake H usleep port a b fuel w ≡ some (tt, w')
        → (k : ℕ) × (wire w' ≡ wire w ++ (attempts a b (suc k) ++ (0x00 ∷ [])))
    unfolding handshake
    wire-handshake zero w w' e = cc e
    wire-handshake (suc fuel) w w' e =
        decided-Sends (confirmed H usleep port a b w) fuel w w'
          (wire-handshake fuel (sent H usleep port a b w).1 w') e
