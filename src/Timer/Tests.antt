-- ===== src/Timer/Tests.antt =====
-- Readings of the clock.
use libresman.Base.{◌+◌, ◌*◌, ◌≤◌, ◌<◌, ◌≡◌, arith}
use libresman.Timer.{Time, resman_get_time_msec}
use libresman.Timer.Elapsed.{never, resman_get_time_msec-elapsed}

-- The first reading, one nearly a second on, and one a second on.
abbrev first_time : Time
first_time = record { sec = 5; rest = 500000 }

abbrev nearly : Time
nearly = record { sec = 5; rest = 999999999 }

abbrev next_second : Time
next_second = record { sec = 6; rest = 0 }

resman_get_time_msec-elapsed_example :
    (resman_get_time_msec 1000000 first_time never ≡ (0, first_time))
    × ((resman_get_time_msec 1000000 nearly first_time).1 ≡ first_time)
    × ((resman_get_time_msec 1000000 nearly first_time).0 * 1000000 ≤ 999499999 + 1000000)
    × (999499999 < (resman_get_time_msec 1000000 nearly first_time).0 * 1000000 + 1000000)
    × ((resman_get_time_msec 1000000 nearly first_time).0
        ≤ (resman_get_time_msec 1000000 next_second first_time).0)
resman_get_time_msec-elapsed_example =
    resman_get_time_msec-elapsed first_time nearly next_second (omega arith) (omega arith)
      (omega arith) (omega arith) (omega arith) (omega arith) (omega arith)
