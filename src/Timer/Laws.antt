-- ===== src/Timer/Laws.antt =====
-- How long the timer of main.c runs, and how long the main loop sleeps.
use projeto_rci.Base.{ℕ, ◌+◌, ◌*◌, ◌/◌, ◌≤◌, ◌<◌, ◌≡◌, true, false, some, arith}
use projeto_rci.Timer.{
  Timespec, Timeval, Timer, giga, add_ms, has_passed, time_left, select_timeout, fires,
}

-- Nanoseconds since the clock's origin.
abbrev pub total : Timespec → ℕ
total t = t.tv_sec * giga + t.tv_nsec

abbrev pub total_us : Timeval → ℕ
total_us t = t.tv_sec * 1000000 + t.tv_usec

-- `set_timeout` adds the whole seconds of the timeout twice, once as seconds and once as
-- nanoseconds: the instant lies that much later than the timeout asks for.
pub total-add_ms :
    (now : Timespec) (ms : ℕ)
    → total (add_ms now ms) ≡ total now + ms * 1000000 + (ms / 1000) * giga
unfolding add_ms
total-add_ms now ms = ground arith

pub add_ms_normal :
    (now : Timespec) (ms : ℕ) → now.tv_nsec < giga → ms ≤ 1000 → (add_ms now ms).tv_nsec ≤ giga
unfolding add_ms
add_ms_normal now ms h le = ground arith

-- An instant whose nanoseconds are in range has passed once the clock is beyond it, and never
-- before the clock reaches it.
pub has_passed-total :
    (now instant : Timespec)
    → now.tv_nsec < giga
    → instant.tv_nsec ≤ giga
    → (total instant < total now → has_passed now instant ≡ true)
      × (has_passed now instant ≡ true → total instant ≤ total now)
unfolding has_passed
has_passed-total now instant h k = (λ lt. ground arith, λ e. ground arith)

-- If the nanoseconds of the clock are in range and the instant has not passed, the time given to
-- `select()` ends after the instant, and at most two microseconds after it.
pub time_left_bounds :
    (now instant : Timespec)
    → now.tv_nsec < giga
    → has_passed now instant ≡ false
    → (total instant < total now + total_us (time_left now instant) * 1000)
      × (total now + total_us (time_left now instant) * 1000 ≤ total instant + 2000)
unfolding has_passed time_left
time_left_bounds now instant h e = ground arith

-- If a timer waits, both readings of the clock have nanoseconds below 10^9, the nanoseconds of the
-- timer's instant are at most 10^9, and `select()` takes some time and at least the time that it
-- was given, then the handler of the timer is called after it.
pub timeout-fires :
    (now later : Timespec) (left : Timeval) (t : Timer)
    → now.tv_nsec < giga
    → later.tv_nsec < giga
    → t.timeout_instant.tv_nsec ≤ giga
    → select_timeout (some now) t ≡ some left
    → total now + total_us left * 1000 ≤ total later
    → total now < total later
    → fires (some later) t ≡ true
unfolding select_timeout fires
timeout-fires now later left t h k n e w s = ground (
  arith,
  has_passed-total later t.timeout_instant k n,
  has_passed-total now t.timeout_instant h n,
  time_left_bounds now t.timeout_instant h,
)
