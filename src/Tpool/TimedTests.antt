-- ===== src/Tpool/TimedTests.antt =====
-- `resman_tpool_timedwait` at a concrete time.
use libresman.Base.{ℕ, ◌≤◌, ◌≡◌, refl, true, if◌then◌else◌, leb, no_fuel, arith}
use libresman.Timer.{Time}
use libresman.Tpool.{Pool, tpool_create}
use libresman.Tpool.Timed.{Wake, invalid, timed_out, tpool_timedwait, tpool_timedwait-stuck}

-- A wait that refuses what it should, and else runs out of time.
abbrev strict_wait : Pool ℕ → Time → Pool ℕ × Wake
strict_wait p ts = if leb 1000000000 ts.rest then (p, invalid) else (p, timed_out)

strict_wait-invalid :
    (p : Pool ℕ) (ts : Time) → 1000000000 ≤ ts.rest → strict_wait p ts ≡ (p, invalid)
strict_wait-invalid p ts long =
    let over : leb 1000000000 ts.rest ≡ true = ground (arith, long) in rw over refl

-- One job is being done, and the clock is at the end of a second.
abbrev busy_pool : Pool ℕ
busy_pool = record (tpool_create 1) { nactive = 1 }

tpool_timedwait-stuck_example :
    tpool_timedwait strict_wait 100
      (record { sec = 5; rest = 900000 })
      (record { sec = 6; rest = 0 })
      500
      busy_pool
    ≡ no_fuel
tpool_timedwait-stuck_example =
    tpool_timedwait-stuck strict_wait strict_wait-invalid 100 (record { sec = 5; rest = 900000 })
      (record { sec = 6; rest = 0 }) 500 busy_pool (omega arith) refl
