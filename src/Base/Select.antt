-- ===== src/Base/Select.antt =====
-- What the programs use of `select`: descriptor sets, and the time limit in seconds and
-- microseconds.
use renogy_x.Base.Int.{ℤ, ◌==ℤ◌, wrap32, quot, rem, mul_ℕ}
use mathlib.Core.Bool.{Bool, false, ◌||◌}
use mathlib.Core.List.{List, [], ◌∷◌}

abbrev pub FdSet : Type 0
FdSet = List ℤ

abbrev pub fd_isset : ℤ → FdSet → Bool
fd_isset fd [] = false
fd_isset fd (x ∷ xs) = (x ==ℤ fd) || fd_isset fd xs

pub record Timeval : Type 0 where
  pub tv_sec : ℤ
  pub tv_usec : ℤ

-- The result of `select` with the sets as it leaves them.
pub record Selected : Type 0 where
  pub rv : ℤ
  pub rfds : FdSet
  pub wfds : FdSet

-- `time.tv_sec = ms / 1000; time.tv_usec = (ms * 1000) % 1000000;` where the product is an `int`.
unfoldable pub timeval_of_ms : ℤ → Timeval
unfolding wrap32 quot rem
timeval_of_ms ms = record { tv_sec = quot ms 1000; tv_usec = rem (wrap32 (mul_ℕ ms 1000)) 1000000 }
