-- ===== src/Timer/Tests.antt =====
-- The theorems on the timer at concrete instants.
use projeto_rci.Base.{◌+◌, ◌*◌, ◌/◌, ◌≤◌, ◌<◌, ◌≡◌, refl, true, false, some, arith}
use projeto_rci.Timer.{Timespec, Timer, giga, add_ms, has_passed, time_left, select_timeout, fires}
use projeto_rci.Timer.Laws.{total, total_us, total-add_ms, time_left_bounds, timeout-fires}

abbrev now : Timespec
now = record { tv_sec = 7; tv_nsec = 900000000 }

abbrev later : Timespec
later = record { tv_sec = 9; tv_nsec = 900002000 }

abbrev instant : Timespec
instant = record { tv_sec = 9; tv_nsec = 100000000 }

abbrev timer : Timer
timer = record { timeout_instant = instant; timeout_handler = true }

-- A second is added as two.
two_seconds : add_ms now 1000 ≡ record { tv_sec = 9; tv_nsec = 900000000 }
unfolding add_ms
two_seconds = refl

not_passed : has_passed now instant ≡ false
unfolding has_passed
not_passed = refl

waits : select_timeout (some now) timer ≡ some (record { tv_sec = 1; tv_usec = 200001 })
unfolding select_timeout has_passed time_left
waits = refl

total-add_ms_example : total (add_ms now 1000) ≡ total now + 1000 * 1000000 + (1000 / 1000) * giga
total-add_ms_example = total-add_ms now 1000

time_left_bounds_example :
    (total instant < total now + total_us (time_left now instant) * 1000)
    × (total now + total_us (time_left now instant) * 1000 ≤ total instant + 2000)
time_left_bounds_example = time_left_bounds now instant (omega arith) not_passed

timeout-fires_example : fires (some later) timer ≡ true
timeout-fires_example =
    timeout-fires now later (record { tv_sec = 1; tv_usec = 200001 }) timer (omega arith)
      (omega arith) (omega arith) waits (omega arith) (omega arith)
