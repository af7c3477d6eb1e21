-- ===== src/Influx/Clock.antt =====
-- The millisecond clock of renogy_influx/renogy_influx_log.c and the deadline that
-- renogy_influx/renogy_influx.c computes from it, across the wrap of the `int` that holds it.
use renogy_x.Influx.Monitor.Turns.{end_of}
use renogy_x.Base.{ℕ, ◌+◌, ◌-◌, ◌*◌, ◌/◌, ◌≤◌, ◌<◌}
use renogy_x.Base.{◌≡◌, arith}
use renogy_x.Base.{pos, pos_part, neg_part, wrap32}
use renogy_x.Base.{to_u32}
use renogy_x.Base.{wrap32-eq-signed, to_u32-wrap32, to_u32-add, to_u32-sub, to_u32, signed}
use renogy_x.Base.{timeval_of_ms}
use renogy_x.Influx.Log.{tick_of}
use renogy_x.Influx.Transfer.Loop.{wait_of}

-- The milliseconds of a reading of the clock.
abbrev pub millis : ℕ → ℕ → ℕ
millis sec nsec = sec * 1000 + nsec / 1000000

tick_of-eq-wrap32 :
    (sec nsec : ℕ) → nsec < 1000000000 → tick_of sec nsec ≡ wrap32 (pos (millis sec nsec))
unfolding tick_of
tick_of-eq-wrap32 sec nsec h = ground arith

signed_of : {x d : ℕ} → x ≡ 60000 - d → d ≤ 60000 → signed x ≡ pos (60000 - d)
signed_of e h = ground arith

-- What is left of the minute after `d` milliseconds.
wait_of-end_of :
    (m d : ℕ)
    → d ≤ 60000
    → wait_of (end_of (wrap32 (pos m))) (wrap32 (pos (m + d))) ≡ pos (60000 - d)
unfolding wait_of end_of
wait_of-end_of m d h =
    rw (wrap32-eq-signed, to_u32-sub, to_u32-wrap32, to_u32-wrap32, to_u32-add, to_u32-wrap32)
      (signed_of (unfold to_u32 in omega arith) h)

-- For two readings of the clock that lie `d` milliseconds apart, at most a minute, the wait until the
-- deadline set at the first is a minute less `d` at the second, also where the `int` of the clock wraps.
pub wait_of-tick_of :
    (sec nsec sec' nsec' d : ℕ)
    → nsec < 1000000000
    → nsec' < 1000000000
    → millis sec' nsec' ≡ millis sec nsec + d
    → d ≤ 60000
    → wait_of (end_of (tick_of sec nsec)) (tick_of sec' nsec') ≡ pos (60000 - d)
wait_of-tick_of sec nsec sec' nsec' d h h' e le =
    rw (tick_of-eq-wrap32 sec nsec h, tick_of-eq-wrap32 sec' nsec' h', e)
      (wait_of-end_of (millis sec nsec) d le)

-- A wait of up to 2147483 milliseconds is passed on exactly, in whole seconds and microseconds.
pub timeval_of_ms_exact :
    (ms : ℕ)
    → ms ≤ 2147483
    → let t = timeval_of_ms (pos ms) in
      (pos_part t.tv_sec * 1000000 + pos_part t.tv_usec ≡ ms * 1000)
      × (pos_part t.tv_usec < 1000000)
      × (neg_part t.tv_sec ≡ 0)
      × (neg_part t.tv_usec ≡ 0)
unfolding timeval_of_ms
timeval_of_ms_exact ms h = ground arith
