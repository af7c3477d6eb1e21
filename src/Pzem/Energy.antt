-- ===== src/Pzem/Energy.antt =====
-- The two-register values of a reading (examples/readregs/pzem/pzem.c).
use renogy_x.Base.{ℕ, ◌-◌, ◌/◌, ◌%◌, ◌^◌, ◌<◌, ltb}
use renogy_x.Base.{◌≡◌, arith, if◌then◌else◌}
use renogy_x.Base.{pos, negsuc, wrap32}
use renogy_x.Pzem.Meter.{word}

-- A 32-bit value that the meter splits into a low and a high register is put together again where it
-- is below 2^31, and comes out 2^32 too small where it is not.
pub word-halves :
    (v : ℕ)
    → v < 2 ^ 32
    → word (v % 2 ^ 16) (v / 2 ^ 16) ≡ (if ltb v (2 ^ 31) then pos v else negsuc (2 ^ 32 - v - 1))
unfolding word wrap32
word-halves v h = ground arith
