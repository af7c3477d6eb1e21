-- ===== src/Influx/Log/Laws.antt =====
-- What the log's lines look like, and that writing one leaves no memory behind
-- (renogy_influx/renogy_influx_log.c).
use renogy_x.Base.{ℕ, zero, suc, ◌+◌, ◌-◌, ◌%◌, ◌≤◌, ◌<◌, ltb}
use renogy_x.Base.{◌≡◌, refl, ◌∙◌, inl, inr, arith, if◌then◌else◌, Bool-cases}
use renogy_x.Base.{Option, none, some, List, ◌++◌}
use renogy_x.Base.{length, length-take, length-append}
use renogy_x.Base.{ℤ, pos}
use renogy_x.Base.{codes, padded, printed, to_u32, length-padded}
use renogy_x.Influx.System.{System}
use renogy_x.Influx.Log.{Log, log_pre, log_text, get_mstime, log_write, logln}

length-log_pre : (n : ℕ) → length (log_pre n) ≤ 5
length-log_pre zero = omega arith
length-log_pre (suc zero) = omega arith
length-log_pre (suc (suc zero)) = omega arith
length-log_pre (suc (suc (suc n))) = omega arith

-- A line fits its buffer of 2048 bytes with the NUL, however long the message: `snprintf` cuts nothing,
-- and its result is the length of what is written.
pub length-log_text :
    (mstime : ℤ) (log_level : ℕ) (message : List ℕ)
    → length (log_text mstime log_level message) < 2048
unfolding log_text
length-log_text mstime log_level message =
    let tail = codes "]" ++ (printed 1024 message ++ codes "\n") in
    let pre = log_pre (log_level % 4) in
    let tick = padded 10 (to_u32 mstime) in
    omega (
      arith,
      length-append tick (codes "][" ++ (pre ++ tail)),
      length-append pre tail,
      length-append (printed 1024 message) (codes "\n"),
      length-take 1023 message,
      length-padded 10 (to_u32 mstime),
      length-log_pre (log_level % 4),
    )

module _ (S : System) where
  -- A number to which `malloc` adds a unit where it gives a block, from which `free` takes one away, and
  -- which the calls that write the log leave alone.
  pub record IsUnitCount (unit : ℕ) (blocks : S.World → ℕ) : Type 0 where
    pub of_malloc :
        (n : ℕ) (w : S.World)
        → blocks (S.malloc n w).1 ≡ (if (S.malloc n w).0 then blocks w + unit else blocks w)
    pub of_free : (w : S.World) → blocks (S.free w) ≡ blocks w - unit
    pub of_clock : (w : S.World) → blocks (S.clock_gettime w).1 ≡ blocks w
    pub of_write :
        (fd : ℤ) (bytes : List ℕ) (w : S.World) → blocks (S.write fd bytes w).1 ≡ blocks w
    pub of_printf : (bytes : List ℕ) (w : S.World) → blocks (S.printf bytes w) ≡ blocks w

  -- How many blocks are taken from the heap.
  abbrev pub IsHeapCount : (S.World → ℕ) → Type 0
  IsHeapCount blocks = IsUnitCount 1 blocks

  module _ (unit : ℕ) (blocks : S.World → ℕ) (laws : IsUnitCount unit blocks) where
    blocks-log_write :
        (line : List ℕ) (g : Log) (w : S.World) → blocks (log_write S line g w).1 ≡ blocks w - unit
    unfolding log_write
    blocks-log_write line g w =
        let w1 = (S.write g.fd line w).1 in
        ground (
          arith,
          laws.of_write g.fd line w,
          laws.of_free w,
          laws.of_free w1,
          laws.of_printf line w,
          laws.of_printf line w1,
          laws.of_free (S.printf line w),
          laws.of_free (S.printf line w1),
        )

    blocks-report :
        (log_level : ℕ) (message : List ℕ) (g : Log) (read : Option ℤ) (w : S.World)
        → blocks
            (elim read as (λ _. ℤ × S.World) [
              | none ↦ (pos 1, S.free w)
              | some mstime ↦ log_write S (log_text mstime log_level message) g w
            ]).1
          ≡ blocks w - unit
    blocks-report log_level message g none w = laws.of_free w
    blocks-report log_level message g (some mstime) w =
        blocks-log_write (log_text mstime log_level message) g w

    pub unit-logln :
        (log_level : ℕ) (message : List ℕ) (g : Log) (w : S.World)
        → blocks (logln S log_level message g w).1 ≡ blocks w
    unfolding logln get_mstime
    unit-logln log_level message g w =
        let w1 = (S.malloc 3072 w).1 in
        let w2 = (S.clock_gettime w1).1 in
        let wrote = blocks-report log_level message g (get_mstime S w1).0 w2 in
        let taken = laws.of_malloc 3072 w in
        let timed = laws.of_clock w1 in
        elim (Bool-cases (ltb log_level g.level)) [
          | inl heard ↦ elim (Bool-cases (S.malloc 3072 w).0) [
            | inl given ↦ rw (heard, given) (wrote ∙ ground arith)
            | inr empty ↦ rw (heard, empty) (ground arith)
          ]
          | inr dropped ↦ rw dropped refl
        ]

  -- Writing to the log takes no memory in the end, on any branch: what is allocated is freed.
  pub blocks-logln :
      (blocks : S.World → ℕ)
      → IsHeapCount blocks
      → (log_level : ℕ) (message : List ℕ) (g : Log) (w : S.World)
      → blocks (logln S log_level message g w).1 ≡ blocks w
  blocks-logln blocks laws = unit-logln 1 blocks laws
