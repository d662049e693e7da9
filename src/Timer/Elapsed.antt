-- ===== src/Timer/Elapsed.antt =====
-- How the result of `resman_get_time_msec` of src/timer.c goes with the clock.
use libresman.Base.{
  ℕ, ◌+◌, ◌-◌, ◌*◌, ◌^◌, ◌≤◌, ◌<◌, ◌≡◌, refl, false, ◌&&◌, ◌==◌, leb, arith, inl, inr, Bool-cases,
}
use libresman.Timer.{Time, elapsed, resman_get_time_msec}

-- What has gone by since `ts0`, in nanoseconds.
abbrev pub nanos : Time → Time → ℕ
nanos ts0 ts = ts.sec * 1000000000 + ts.rest - (ts0.sec * 1000000000 + ts0.rest)

elapsed_within :
    (ts0 ts : Time)
    → ts0.sec * 1000000000 + ts0.rest ≤ ts.sec * 1000000000 + ts.rest
    → ts0.rest < 1000000000
    → ts.rest < 1000000000
    → ts.sec < 2 ^ 50
    → (elapsed 1000000 ts0 ts * 1000000 ≤ nanos ts0 ts + 1000000)
      × (nanos ts0 ts < elapsed 1000000 ts0 ts * 1000000 + 1000000)
unfolding elapsed
elapsed_within ts0 ts later r0 r small = elim (Bool-cases (leb ts0.rest ts.rest)) [
  | inl up ↦ (ground (arith, later, r0, r, small, up), ground (arith, later, r0, r, small, up))
  | inr down ↦
      (ground (arith, later, r0, r, small, down), ground (arith, later, r0, r, small, down))
]

elapsed-le :
    (ts0 ts ts' : Time)
    → ts0.sec * 1000000000 + ts0.rest ≤ ts.sec * 1000000000 + ts.rest
    → ts.sec * 1000000000 + ts.rest ≤ ts'.sec * 1000000000 + ts'.rest
    → ts0.rest < 1000000000
    → ts.rest < 1000000000
    → ts'.rest < 1000000000
    → ts'.sec < 2 ^ 50
    → elapsed 1000000 ts0 ts ≤ elapsed 1000000 ts0 ts'
unfolding elapsed
elapsed-le ts0 ts ts' a b r0 r r' small = elim (Bool-cases (leb ts0.rest ts.rest)) [
  | inl up ↦ elim (Bool-cases (leb ts0.rest ts'.rest)) [
    | inl up' ↦ ground (arith, a, b, r0, r, r', small, up, up')
    | inr down' ↦ ground (arith, a, b, r0, r, r', small, up, down')
  ]
  | inr down ↦ elim (Bool-cases (leb ts0.rest ts'.rest)) [
    | inl up' ↦ ground (arith, a, b, r0, r, r', small, down, up')
    | inr down' ↦ ground (arith, a, b, r0, r, r', small, down, down')
  ]
]

-- The clock before the first call.
abbrev pub never : Time
never = record { sec = 0; rest = 0 }

-- With `clock_gettime`, whose first reading `ts0` is not zero and which does not go back: the first
-- call gives 0, and each later one the time that has gone by since, in milliseconds, too large by one
-- at most and too small by less than one, and the results do not go back either.
pub resman_get_time_msec-elapsed :
    (ts0 ts ts' : Time)
    → 0 < ts0.sec + ts0.rest
    → ts0.sec * 1000000000 + ts0.rest ≤ ts.sec * 1000000000 + ts.rest
    → ts.sec * 1000000000 + ts.rest ≤ ts'.sec * 1000000000 + ts'.rest
    → ts0.rest < 1000000000
    → ts.rest < 1000000000
    → ts'.rest < 1000000000
    → ts'.sec < 2 ^ 50
    → (resman_get_time_msec 1000000 ts0 never ≡ (0, ts0))
      × ((resman_get_time_msec 1000000 ts ts0).1 ≡ ts0)
      × ((resman_get_time_msec 1000000 ts ts0).0 * 1000000 ≤ nanos ts0 ts + 1000000)
      × (nanos ts0 ts < (resman_get_time_msec 1000000 ts ts0).0 * 1000000 + 1000000)
      × ((resman_get_time_msec 1000000 ts ts0).0 ≤ (resman_get_time_msec 1000000 ts' ts0).0)
unfolding resman_get_time_msec
resman_get_time_msec-elapsed ts0 ts ts' some_time a b r0 r r' small =
    let started : (ts0.sec == 0) && (ts0.rest == 0) ≡ false = ground (arith, some_time) in
    let near = elapsed_within ts0 ts a r0 r (omega (arith, b, r, r', small)) in
    (
      refl,
      rw started refl,
      rw started near.0,
      rw started near.1,
      rw started (elapsed-le ts0 ts ts' a b r0 r r' small),
    )
