-- ===== src/Timer.antt =====
-- The timer of main.c: `set_timeout`, `cancel_timeout`, the two parts of the main loop that read
-- the clock, and what they compute.
--
-- The monotonic clock is an argument: `none` where `clock_gettime` fails. Its seconds and
-- nanoseconds are natural numbers; the sums stay far below the range of their C types.
pub mod Laws
pub mod Tests
use projeto_rci.Base.{
  ℕ, ◌+◌, ◌-◌, ◌*◌, ◌/◌, Bool, true, false, ◌&&◌, ◌||◌, Option, none, some, ltb, leb, ◌==◌,
  if◌then◌else◌,
}

-- `struct timespec`
pub record Timespec : Type 0 where
  pub tv_sec : ℕ
  pub tv_nsec : ℕ

-- `struct timeval`
pub record Timeval : Type 0 where
  pub tv_sec : ℕ
  pub tv_usec : ℕ

abbrev pub giga : ℕ
giga = 1000000000

-- The only handler that the program sets is `pred_timeout`, so a handler is there or it is NULL.
pub record Timer : Type 0 where
  pub timeout_instant : Timespec
  pub timeout_handler : Bool

-- `timeout_instant` with the timeout added.
unfoldable pub add_ms : Timespec → ℕ → Timespec
add_ms now ms =
    let sec = now.tv_sec + ms / 1000 in
    let nsec = now.tv_nsec + ms * 1000000 in
    if ltb giga nsec
    then record { tv_sec = sec + 1; tv_nsec = nsec - giga }
    else record { tv_sec = sec; tv_nsec = nsec }

unfoldable pub set_timeout : Option Timespec → ℕ → Timer → Timer
set_timeout none ms t = t
set_timeout (some now) ms t = record t { timeout_instant = add_ms now ms; timeout_handler = true }

unfoldable pub cancel_timeout : Timer → Timer
cancel_timeout t = record t { timeout_handler = false }

-- Has the instant passed?
unfoldable pub has_passed : Timespec → Timespec → Bool
has_passed now instant =
    ltb instant.tv_sec now.tv_sec
    || (now.tv_sec == instant.tv_sec && ltb instant.tv_nsec now.tv_nsec)

-- The time left for `select()` until the instant, if it has not passed. The division of a negative
-- difference of nanoseconds is towards zero; `tv_usec` is adjusted where it comes out negative.
unfoldable pub time_left : Timespec → Timespec → Timeval
time_left now instant =
    let sec = instant.tv_sec - now.tv_sec in
    let over = (now.tv_nsec - instant.tv_nsec) / 1000 in
    if leb now.tv_nsec instant.tv_nsec
    then record { tv_sec = sec; tv_usec = (instant.tv_nsec - now.tv_nsec) / 1000 + 1 }
    else if leb over 1
    then record { tv_sec = sec; tv_usec = 1 - over }
    else record { tv_sec = sec - 1; tv_usec = 1000000 + 1 - over }

-- `select_timeout` and its pointer, which is NULL where there is nothing to wait for.
unfoldable pub select_timeout : Option Timespec → Timer → Option Timeval
select_timeout none t = none
select_timeout (some now) t =
    if t.timeout_handler
    then (if has_passed now t.timeout_instant
        then some (record { tv_sec = 0; tv_usec = 0 })
        else some (time_left now t.timeout_instant))
    else none

-- After `select()`: is the handler called (and unset)?
unfoldable pub fires : Option Timespec → Timer → Bool
fires none t = false
fires (some now) t = t.timeout_handler && has_passed now t.timeout_instant
