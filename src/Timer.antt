-- ===== src/Timer.antt =====
-- src/timer.c: `resman_get_time_msec` on Unix, with either clock. A time is its seconds and the rest in
-- units of which `per_ms` make a millisecond: 1000000 for `clock_gettime`, 1000 for `gettimeofday`.
-- The result is an `unsigned long`.
pub mod Elapsed
mod Tests
use libresman.Base.{ℕ, ◌+◌, ◌-◌, ◌*◌, ◌/◌, ◌%◌, ◌^◌, Bool, ◌&&◌, if◌then◌else◌, ◌==◌, leb}

-- `struct timespec` or `struct timeval`
pub record Time : Type 0 where
  pub sec : ℕ
  pub rest : ℕ

-- `a - b` on 64 bits
abbrev pub sub64 : ℕ → ℕ → ℕ
sub64 a b = (a % 2 ^ 64 + 2 ^ 64 - b % 2 ^ 64) % 2 ^ 64

-- `(ts.rest - ts0.rest) / per_ms`, whose quotient goes towards zero.
abbrev pub rest_msec : ℕ → ℕ → ℕ → ℕ
rest_msec per_ms rest rest0 =
    if leb rest0 rest then (rest - rest0) / per_ms else sub64 0 ((rest0 - rest) / per_ms)

unfoldable pub elapsed : ℕ → Time → Time → ℕ
elapsed per_ms ts0 ts = (sub64 ts.sec ts0.sec * 1000 + rest_msec per_ms ts.rest ts0.rest) % 2 ^ 64

-- The call: its result and the static `ts0` after it. `ts` is what the clock says.
unfoldable pub resman_get_time_msec : ℕ → Time → Time → ℕ × Time
unfolding elapsed
resman_get_time_msec per_ms ts ts0 =
    if (ts0.sec == 0) && (ts0.rest == 0) then (0, ts) else (elapsed per_ms ts0 ts, ts0)
