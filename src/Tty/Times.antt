-- ===== src/Tty/Times.antt =====
-- When tty_reader/tty_reader.zig makes its requests.
use renogy_x.Base.{ℕ, ◌+◌, ◌≤◌}
use renogy_x.Base.{◌≡◌, subst, sym, arith}
use renogy_x.Base.{Option, none, some, List, [], ◌∷◌}
use renogy_x.Base.{Bool, true, false, ◌&&◌}
use renogy_x.Base.{leb, ◌-◌, if◌then◌else◌}
use renogy_x.Tty.Requests.{
  Line, TtyInfo, Outcome, returned, raised, crashed, orelse, Tty, timeout_of,
}
use renogy_x.Tty.Parse.{Parse}

-- When a request began and when it ended.
abbrev pub Request : Type 0
Request = ℕ × ℕ

-- A request begins at least `least` after the one before has ended.
abbrev pub IsLater : ℕ → ℕ → List Request → Type 0
IsLater least begin [] = Unit
IsLater least begin (before ∷ _) = before.1 + least ≤ begin

-- Requests, the last of them first.
abbrev pub AreSpaced : ℕ → List Request → Type 0
AreSpaced least [] = Unit
AreSpaced least (request ∷ requests) = IsLater least request.0 requests × AreSpaced least requests

-- What holds of an outcome.
abbrev pub Holds : {S A : Type 0} → (S → Type 0) → (S → Type 0) → Outcome S A → Type 0
Holds I J (returned a s) = I s
Holds I J (raised s) = J s
Holds I J crashed = Unit

pub timeout_of-Holds :
    (L : Line) (P : Parse) (I J : Tty L P → Type 0) (nmt now : ℕ) (info : Tty L P)
    → I info
    → Holds I J (timeout_of L P nmt now info)
timeout_of-Holds L P I J nmt now info h =
    go (leb (nmt - now) 0x7FFFFFFF && leb (now - nmt) 0x80000000)
  where
    go : (b : Bool) → Holds I J (if b then returned (nmt - now) info else crashed)
    go true = h
    go false = tt

module _ (L : Line) (clock : L.World → ℕ) (asked : L.World → List Request) where
  -- Time passes, and nothing is asked.
  abbrev pub Passes : L.World → L.World → Type 0
  Passes w w' = (clock w ≤ clock w') × (asked w' ≡ asked w)

  -- Time passes, and a request is made.
  abbrev pub Asks : L.World → L.World → Type 0
  Asks w w' = (clock w ≤ clock w') × (asked w' ≡ (clock w, clock w') ∷ asked w)

  -- `clock` is what `milli_timestamp` shows, and `asked` lists the reads of registers.
  pub record IsTimed : Type 0 where
    pub of_time :
        (w : L.World)
        → Passes w (L.milli_timestamp w).1
          × ((L.milli_timestamp w).0 ≡ clock (L.milli_timestamp w).1)
    pub of_slave : (id : ℕ) (w : L.World) → Passes w (L.modbus_set_slave id w).1
    pub of_read : (a n : ℕ) (w : L.World) → Asks w (L.modbus_read_registers a n w).1
    pub of_read_input : (a n : ℕ) (w : L.World) → Asks w (L.modbus_read_input_registers a n w).1

  -- The last request ended no later than `last_modbus_time`, and without one nothing was asked.
  abbrev pub IsEnded : Option ℕ → List Request → Type 0
  IsEnded last [] = Unit
  IsEnded none (request ∷ _) = ⊥
  IsEnded (some time) (request ∷ _) = request.1 ≤ time

  pub record IsSpaced (info : TtyInfo L.World) : Type 0 where
    pub spaced : AreSpaced info.min_mstime (asked info.world)
    pub ended : IsEnded info.last_modbus_time (asked info.world)

  -- The requests so far are spaced, whatever `last_modbus_time` says.
  abbrev pub SpacedSoFar : TtyInfo L.World → Type 0
  SpacedSoFar info = AreSpaced info.min_mstime (asked info.world)

  -- And they have ended.
  abbrev pub Settled : TtyInfo L.World → Type 0
  Settled info = SpacedSoFar info × IsEnded (some (clock info.world)) (asked info.world)

  -- And another may be made.
  abbrev pub Ready : TtyInfo L.World → Type 0
  Ready info = SpacedSoFar info × IsLater info.min_mstime (clock info.world) (asked info.world)

  pub IsLater-mono :
      (least : ℕ) (b b' : ℕ) (l : List Request) → b ≤ b' → IsLater least b l → IsLater least b' l
  IsLater-mono least b b' [] h later = tt
  IsLater-mono least b b' (r ∷ l) h later = omega (arith, later, h)

  pub IsLater-IsEnded : (least b : ℕ) (l : List Request) → IsLater least b l → IsEnded (some b) l
  IsLater-IsEnded least b [] later = tt
  IsLater-IsEnded least b (r ∷ l) later = omega (arith, later)

  pub IsEnded-mono :
      (b b' : ℕ) (l : List Request) → b ≤ b' → IsEnded (some b) l → IsEnded (some b') l
  IsEnded-mono b b' [] h ended = tt
  IsEnded-mono b b' (r ∷ l) h ended = omega (arith, ended, h)

  pub IsEnded-IsLater :
      (least b : ℕ) (last : Option ℕ) (l : List Request)
      → IsEnded last l
      → orelse last 0 + least ≤ b
      → IsLater least b l
  IsEnded-IsLater least b last [] ended h = tt
  IsEnded-IsLater least b none (r ∷ l) ended h = absurd ended
  IsEnded-IsLater least b (some time) (r ∷ l) ended h = omega (arith, ended, h)

  pub Ready-Passes :
      (info : TtyInfo L.World) (w : L.World)
      → Passes info.world w
      → Ready info
      → Ready (record info { world = w })
  Ready-Passes info w (later, same) (spaced, ready) = (
    subst (AreSpaced info.min_mstime) (sym same) spaced,
    subst (IsLater info.min_mstime (clock w)) (sym same)
        (IsLater-mono info.min_mstime (clock info.world) (clock w) (asked info.world) later ready),
  )

  pub Settled-Asks :
      (info : TtyInfo L.World) (w : L.World)
      → Asks info.world w
      → Ready info
      → Settled (record info { world = w })
  Settled-Asks info w (later, listed) (spaced, ready) = (
    subst (AreSpaced info.min_mstime) (sym listed) (ready, spaced),
    subst (IsEnded (some (clock w))) (sym listed) (omega arith),
  )
